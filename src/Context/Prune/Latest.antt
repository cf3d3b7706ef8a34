-- ===== src/Context/Prune/Latest.antt =====
-- Which calls `pruneMessageContext` keeps (context-prune.ts).
use ctxlite.Prelude.{
  ◌≡◌, refl, ap, ◌∙◌, true, false, ◌&&◌, Option, none, some, List, [], ◌∷◌, ◌++◌, map, arith, Text,
  text_eq, All, inl, inr, Bool-cases, or_else, Dict, dict_get, dict_set, get-set, length,
  length-map,
}
use ctxlite.Context.Sweep.{Part, Message, is_completed, zero_counts}
use ctxlite.Context.Sweep.Pointwise.{rewritten, rewrite_message, sweep-eq-map}
use ctxlite.Context.Prune.{
  key_of, note_latest, latest_by_key, is_superseded, prune_part, prune_message_context,
}
use ctxlite.Context.Prune.{note_part}
use mathlib.Core.Path.{◌≡⟨◌⟩◌, ◌∎}
use ctxlite.Prelude.{text_eq_refl}
use ctxlite.Context.Sweep.Pointwise.{around, map-around}

-- No completed call of the key.
abbrev pub Lacks : Text → List Part → Type 0
Lacks k = All (λ q. is_completed q && text_eq (key_of q) k ≡ false)

abbrev pub LacksIn : Text → List Message → Type 0
LacksIn k = All (λ m. Lacks k m.parts)

module _ (k : Text) where
  note_latest-Lacks :
      (latest : Dict Text) (ps : List Part)
      → Lacks k ps
      → dict_get k (note_latest latest ps) ≡ dict_get k latest
  unfolding note_latest
  note_latest-Lacks latest [] h = refl
  note_latest-Lacks latest (p ∷ ps) (h, hs) = elim (Bool-cases (is_completed p)) [
    | inl e ↦ rw e (
        note_latest-Lacks (dict_set (key_of p) (or_else p.call_id []) latest) ps hs
        ∙ ground (arith, get-set (key_of p) k (or_else p.call_id []) latest))
    | inr e ↦ rw e (note_latest-Lacks latest ps hs)
  ]

  latest_by_key-LacksIn :
      (latest : Dict Text) (ms : List Message)
      → LacksIn k ms
      → dict_get k (latest_by_key latest ms) ≡ dict_get k latest
  unfolding latest_by_key
  latest_by_key-LacksIn latest [] h = refl
  latest_by_key-LacksIn latest (m ∷ ms) (h, hs) =
      latest_by_key-LacksIn (note_latest latest m.parts) ms hs ∙ note_latest-Lacks latest m.parts h

pub note_latest-append :
    (latest : Dict Text) (ps qs : List Part)
    → note_latest latest (ps ++ qs) ≡ note_latest (note_latest latest ps) qs
unfolding note_latest
note_latest-append latest [] qs = refl
note_latest-append latest (p ∷ ps) qs = note_latest-append (note_part latest p) ps qs

latest_by_key-append :
    (latest : Dict Text) (ms ns : List Message)
    → latest_by_key latest (ms ++ ns) ≡ latest_by_key (latest_by_key latest ms) ns
unfolding latest_by_key
latest_by_key-append latest [] ns = refl
latest_by_key-append latest (m ∷ ms) ns = latest_by_key-append (note_latest latest m.parts) ms ns

latest_of_last :
    (ms : List Message) (ps : List Part) (p : Part) (qs : List Part) (ns : List Message)
    → is_completed p ≡ true
    → Lacks (key_of p) qs
    → LacksIn (key_of p) ns
    → dict_get (key_of p) (latest_by_key [] (around ms ps p qs ns)) ≡ some (or_else p.call_id [])
unfolding latest_by_key note_latest
latest_of_last ms ps p qs ns c hq hn =
    let k = key_of p in
    let seen = latest_by_key [] ms in
    let here = note_latest seen ps in
    let m : Message = record { parts = ps ++ p ∷ qs } in
    dict_get k (latest_by_key [] (ms ++ m ∷ ns))
    ≡⟨ ap (dict_get k) (latest_by_key-append [] ms (m ∷ ns)) ⟩
      dict_get k (latest_by_key (note_latest seen (ps ++ p ∷ qs)) ns)
    ≡⟨ latest_by_key-LacksIn k (note_latest seen (ps ++ p ∷ qs)) ns hn ⟩
      dict_get k (note_latest seen (ps ++ p ∷ qs))
    ≡⟨ ap (dict_get k) (note_latest-append seen ps (p ∷ qs)) ⟩
      dict_get k (note_latest (note_part here p) qs)
    ≡⟨ note_latest-Lacks k (note_part here p) qs hq ⟩ dict_get k (note_part here p)
    ≡⟨ ground (arith, get-set k k (or_else p.call_id []) here, text_eq_refl k) ⟩
      some (or_else p.call_id []) ∎

not_superseded : (o : Option Text) → is_superseded o (or_else o []) ≡ false
unfolding is_superseded
not_superseded none = refl
not_superseded (some []) = refl
not_superseded (some (c ∷ id)) = rw (text_eq_refl (c ∷ id))

pub prune_part_of_latest :
    (latest : Dict Text) (p : Part)
    → dict_get (key_of p) latest ≡ some (or_else p.call_id [])
    → prune_part latest p ≡ none
unfolding prune_part
prune_part_of_latest latest p h = ground (arith, not_superseded p.call_id)

-- The last completed call of each key is kept as it is, at its place: if no completed call in the
-- parts after `p` has the key of `p`, the pruned messages hold `p` itself between as many messages and
-- parts as before.
pub prune-latest :
    (ms : List Message) (ps : List Part) (p : Part) (qs : List Part) (ns : List Message)
    → is_completed p ≡ true
    → Lacks (key_of p) qs
    → LacksIn (key_of p) ns
    → (ms' : List Message) × (ps' : List Part) × (qs' : List Part) × (ns' : List Message)
      × ((prune_message_context (around ms ps p qs ns)).0 ≡ around ms' ps' p qs' ns')
      × (length ms' ≡ length ms)
      × (length ps' ≡ length ps)
unfolding prune_message_context
prune-latest ms ps p qs ns c hq hn =
    let latest = latest_by_key [] (around ms ps p qs ns) in
    let one = λ (q : Part). rewritten (prune_part latest q) q in
    let kept : one p ≡ p =
      unfold rewritten in
      rw (prune_part_of_latest latest p (latest_of_last ms ps p qs ns c hq hn)) in
    (
      map (rewrite_message (prune_part latest)) ms,
      map one ps,
      map one qs,
      map (rewrite_message (prune_part latest)) ns,
      sweep-eq-map (prune_part latest) (around ms ps p qs ns) zero_counts
          ∙ map-around (prune_part latest) ms ps p qs ns
          ∙ ap
              (λ (q : Part).
                around (map (rewrite_message (prune_part latest)) ms) (map one ps) q (map one qs)
                  (map (rewrite_message (prune_part latest)) ns))
              kept,
      length-map ms (rewrite_message (prune_part latest)),
      length-map ps one,
    )
