-- ===== src/Context/Prune/Names.antt =====
-- What the placeholder of a pruned output says (context-prune.ts).
use mathlib.Core.List.{Memᴰ}
use ctxlite.Prelude.{
  ◌≡◌, ◌≢◌, refl, sym, ap, ◌∙◌, ◌⊎◌, true, false, Option, none, some, List, [], ◌∷◌, ◌++◌, arith,
  Text, text_eq, text_eq_iff, inl, inr, Bool-cases, Option-cases, or_else, Dict, dict_get, get-set,
}
use ctxlite.Tokens.{estimate_tokens}
use ctxlite.Context.Sweep.{Part, Message, is_completed, output_of, Rewrite}
use ctxlite.Context.Prune.{
  key_of, tool_of, note_part, note_latest, latest_by_key, placeholder, is_superseded, prune_output,
  prune_part,
}
use ctxlite.Context.Prune.Latest.{note_latest-append, prune_part_of_latest}

unfoldable pub all_parts : List Message → List Part
all_parts [] = []
all_parts (m ∷ ms) = m.parts ++ all_parts ms

latest_by_key-eq-note_latest :
    (latest : Dict Text) (ms : List Message)
    → latest_by_key latest ms ≡ note_latest latest (all_parts ms)
unfolding latest_by_key all_parts note_latest
latest_by_key-eq-note_latest latest [] = refl
latest_by_key-eq-note_latest latest (m ∷ ms) =
    latest_by_key-eq-note_latest (note_latest latest m.parts) ms
    ∙ sym (note_latest-append latest m.parts (all_parts ms))

-- A completed call of the list that has the key and the id.
pub record IsSource (ps : List Part) (k id : Text) (q : Part) : Type 0 where
  pub listed : Memᴰ q ps
  pub completed : is_completed q ≡ true
  pub same_key : key_of q ≡ k
  pub own_id : or_else q.call_id [] ≡ id

note_part-IsSource :
    (latest : Dict Text) (p : Part) (ps : List Part) (k id : Text)
    → dict_get k (note_part latest p) ≡ some id
    → (dict_get k latest ≡ some id) ⊎ IsSource (p ∷ ps) k id p
note_part-IsSource latest p ps k id h = elim (Bool-cases (is_completed p)) [
  | inl c ↦ elim (Bool-cases (text_eq (key_of p) k)) [
    | inl e ↦ inr (record {
      listed = Memᴰ.head refl;
      completed = c;
      same_key = (text_eq_iff (key_of p) k).0 e;
      own_id = ground (arith, get-set (key_of p) k (or_else p.call_id []) latest);
    })
    | inr e ↦ inl (ground (arith, get-set (key_of p) k (or_else p.call_id []) latest))
  ]
  | inr c ↦ inl (rw c at h)
]

IsSource-tail :
    {p : Part} {ps : List Part} {k id : Text} {q : Part}
    → IsSource ps k id q
    → IsSource (p ∷ ps) k id q
IsSource-tail s = record {
  listed = Memᴰ.tail s.listed;
  completed = s.completed;
  same_key = s.same_key;
  own_id = s.own_id;
}

note_latest-IsSource :
    (latest : Dict Text) (ps : List Part) (k id : Text)
    → dict_get k (note_latest latest ps) ≡ some id
    → (dict_get k latest ≡ some id) ⊎ ((q : Part) × IsSource ps k id q)
unfolding note_latest
note_latest-IsSource latest [] k id h = inl h
note_latest-IsSource latest (p ∷ ps) k id h =
    elim (note_latest-IsSource (note_part latest p) ps k id h) [
      | inr (q, s) ↦ inr (q, IsSource-tail s)
      | inl e ↦ elim (note_part-IsSource latest p ps k id e) [ inl f ↦ inl f | inr s ↦ inr (p, s) ]
    ]

latest-IsSource :
    (ms : List Message) (k id : Text)
    → dict_get k (latest_by_key [] ms) ≡ some id
    → (q : Part) × IsSource (all_parts ms) k id q
latest-IsSource ms k id h =
    elim (note_latest-IsSource [] (all_parts ms) k id (rw latest_by_key-eq-note_latest at h)) [
      | inl e ↦ unfold dict_get in cc
      | inr s ↦ s
    ]

not-is_superseded_self :
    (o : Option Text) (id : Text) → or_else o [] ≡ id → is_superseded o id ≡ false
unfolding is_superseded
not-is_superseded_self o [] h = refl
not-is_superseded_self none (c ∷ id) h = cc
not-is_superseded_self (some own) (c ∷ id) h = ground (arith, text_eq_iff own (c ∷ id))

-- What is read off a replaced output: the id of the latest call is known, it is another one's, and
-- the new text is the placeholder.
prune_part_inv :
    (latest : Dict Text) (p : Part) (r : Rewrite)
    → prune_part latest p ≡ some r
    → (original : Text) × (output_of p ≡ some original)
      × (dict_get (key_of p) latest ≢ none)
      × (is_superseded p.call_id (or_else (dict_get (key_of p) latest) []) ≡ true)
      × (r.output
          ≡ placeholder
              (tool_of p)
              (estimate_tokens original)
              (or_else (dict_get (key_of p) latest) []))
unfolding prune_part prune_output is_superseded
prune_part_inv latest p r h = ground arith

-- Every output that is replaced names a completed call of these messages with the same key, which is
-- another call and keeps its own output; the placeholder gives the tokens of the output that it replaces.
pub prune_names_kept :
    (ms : List Message) (p : Part) (r : Rewrite)
    → prune_part (latest_by_key [] ms) p ≡ some r
    → (q : Part) × (original : Text) × Memᴰ q (all_parts ms)
      × (is_completed q ≡ true)
      × (key_of q ≡ key_of p)
      × (q.call_id ≢ p.call_id)
      × (prune_part (latest_by_key [] ms) q ≡ none)
      × (output_of p ≡ some original)
      × (r.output ≡ placeholder (tool_of p) (estimate_tokens original) (or_else q.call_id []))
prune_names_kept ms p r h =
    let (original, has, known, superseded, text) = prune_part_inv (latest_by_key [] ms) p r h in
    elim (Option-cases (dict_get (key_of p) (latest_by_key [] ms))) [
      | inl e ↦ absurd (known e)
      | inr (id, e) ↦
          let (q, s) = latest-IsSource ms (key_of p) id e in
          (
            q,
            original,
            s.listed,
            s.completed,
            s.same_key,
            λ same. cc (
                not-is_superseded_self p.call_id id
                  (ap (λ (o : Option Text). or_else o []) (sym same) ∙ s.own_id)),
            prune_part_of_latest (latest_by_key [] ms) q
                (rw s.same_key (e ∙ ap (λ (x : Text). some x) (sym s.own_id))),
            has,
            rw s.own_id (rw e at text),
          )
    ]
