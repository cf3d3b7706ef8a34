-- ===== src/Context/Sweep/Pointwise.antt =====
-- About what a pass over the parts of a context changes (context-prune.ts).
use ctxlite.Prelude.{◌≡◌, refl, ap₂, Option, none, some, List, [], ◌∷◌, ◌++◌, map, map-append}
use ctxlite.Context.Sweep.{
  Part, Message, write_output, Rewrite, Counts, apply_rewrite, sweep_parts, sweep,
}

unfoldable pub rewritten : Option Rewrite → Part → Part
rewritten none part = part
rewritten (some r) part = write_output part r.output

apply_rewrite-eq-rewritten :
    (o : Option Rewrite) (p : Part) (t : Counts) → (apply_rewrite o p t).0 ≡ rewritten o p
unfolding rewritten
apply_rewrite-eq-rewritten none p t = refl
apply_rewrite-eq-rewritten (some r) p t = refl

module _ (rewrite : Part → Option Rewrite) where
  unfoldable pub rewrite_message : Message → Message
  rewrite_message m = record m { parts = map (λ p. rewritten (rewrite p) p) m.parts }

  sweep_parts-eq-map :
      (ps : List Part) (t : Counts)
      → (sweep_parts rewrite ps t).0 ≡ map (λ p. rewritten (rewrite p) p) ps
  unfolding sweep_parts
  sweep_parts-eq-map [] t = refl
  sweep_parts-eq-map (p ∷ ps) t =
      ap₂ (λ (q : Part) (qs : List Part). q ∷ qs) (apply_rewrite-eq-rewritten (rewrite p) p t)
        (sweep_parts-eq-map ps (apply_rewrite (rewrite p) p t).1)

  pub sweep-eq-map :
      (ms : List Message) (t : Counts) → (sweep rewrite ms t).0 ≡ map rewrite_message ms
  unfolding sweep rewrite_message
  sweep-eq-map [] t = refl
  sweep-eq-map (m ∷ ms) t =
      ap₂ (λ (ps : List Part) (ns : List Message). record m { parts = ps } ∷ ns)
        (sweep_parts-eq-map m.parts t) (sweep-eq-map ms (sweep_parts rewrite m.parts t).1)

-- A context split at one of its parts.
abbrev pub around : List Message → List Part → Part → List Part → List Message → List Message
around ms ps p qs ns = ms ++ record { parts = ps ++ p ∷ qs } ∷ ns

module _ (rewrite : Part → Option Rewrite) where
  pub map-around :
      (ms : List Message) (ps : List Part) (p : Part) (qs : List Part) (ns : List Message)
      → map (rewrite_message rewrite) (around ms ps p qs ns)
        ≡ around
            (map (rewrite_message rewrite) ms)
            (map (λ q. rewritten (rewrite q) q) ps)
            (rewritten (rewrite p) p)
            (map (λ q. rewritten (rewrite q) q) qs)
            (map (rewrite_message rewrite) ns)
  unfolding rewrite_message
  map-around ms ps p qs ns = rw (map-append, map-append)
