-- ===== src/Context/Sweep/Totals.antt =====
-- About the counts that a pass over a context reports (context-prune.ts).
use ctxlite.Prelude.{
  ℕ, ◌+◌, ◌≡◌, Option, none, some, List, [], ◌∷◌, arith, Text, inl, inr, Option-cases, sub_ℕ,
  sub_ℕ-+ℤ-sub_ℕ,
}
use ctxlite.Tokens.{estimate_tokens}
use ctxlite.Context.Sweep.{
  ToolState, Part, Message, write_output, Rewrite, Counts, add_rewrite, sweep_parts, sweep,
}
use ctxlite.Context.Sweep.{apply_rewrite}
use ctxlite.Prelude.{◌≤◌, ◌<◌, ◌++◌}

abbrev tokens_of_output : Option Text → ℕ
tokens_of_output none = 0
tokens_of_output (some text) = estimate_tokens text

-- The tokens of all tool outputs of the messages.
abbrev tokens_of_state : Option ToolState → ℕ
tokens_of_state none = 0
tokens_of_state (some s) = tokens_of_output s.output

unfoldable pub tokens_of_part : Part → ℕ
tokens_of_part part = tokens_of_state part.state

unfoldable pub tokens_of_parts : List Part → ℕ
tokens_of_parts [] = 0
tokens_of_parts (p ∷ ps) = tokens_of_part p + tokens_of_parts ps

unfoldable pub context_tokens : List Message → ℕ
context_tokens [] = 0
context_tokens (m ∷ ms) = tokens_of_parts m.parts + context_tokens ms

-- Each rewrite counts the output that it replaces and the one that it writes.
abbrev pub IsCounted : (Part → Option Rewrite) → Type 0
IsCounted rewrite =
    (part : Part) (r : Rewrite)
    → rewrite part ≡ some r
    → (r.tokens_in ≡ tokens_of_part part)
      × (r.tokens_out ≡ tokens_of_part (write_output part r.output))
      × (r.tokens_saved ≡ sub_ℕ r.tokens_in r.tokens_out)

-- What a pass from the counts `t` to the counts `t'` did to a context.
pub record IsExact (before after : ℕ) (t t' : Counts) : Type 0 where
  pub exact : after + t'.tokens_in + t.tokens_out ≡ before + t'.tokens_out + t.tokens_in
  pub saved :
      t.tokens_saved ≡ sub_ℕ t.tokens_in t.tokens_out
      → t'.tokens_saved ≡ sub_ℕ t'.tokens_in t'.tokens_out

IsExact-refl : (n : ℕ) (t : Counts) → IsExact n n t t
IsExact-refl n t = record { exact = omega arith; saved = λ h. h }

IsExact-both :
    {a b c d : ℕ} {t t' t'' : Counts}
    → IsExact a b t t'
    → IsExact c d t' t''
    → IsExact (a + c) (b + d) t t''
IsExact-both p q = record {
  exact = omega (arith, p.exact, q.exact);
  saved = λ h. q.saved (p.saved h);
}

add_rewrite-IsExact :
    (a b : ℕ) (t : Counts) (r : Rewrite)
    → r.tokens_in ≡ a
    → r.tokens_out ≡ b
    → r.tokens_saved ≡ sub_ℕ r.tokens_in r.tokens_out
    → IsExact a b t (add_rewrite t r)
unfolding add_rewrite
add_rewrite-IsExact a b t r hin hout hsaved = record {
  exact = omega arith;
  saved = λ h. cc (h, hsaved, sub_ℕ-+ℤ-sub_ℕ t.tokens_in t.tokens_out r.tokens_in r.tokens_out);
}

module _ (rewrite : Part → Option Rewrite) (counted : IsCounted rewrite) where
  apply_rewrite-IsExact :
      (p : Part) (t : Counts)
      → IsExact
          (tokens_of_part p)
          (tokens_of_part (apply_rewrite (rewrite p) p t).0)
          t
          (apply_rewrite (rewrite p) p t).1
  apply_rewrite-IsExact p t = elim (Option-cases (rewrite p)) [
    | inl e ↦ rw e (IsExact-refl (tokens_of_part p) t)
    | inr (r, e) ↦
        let (hin, hout, hsaved) = counted p r e in
        rw e (
          add_rewrite-IsExact (tokens_of_part p) (tokens_of_part (write_output p r.output)) t r hin
            hout hsaved)
  ]

  sweep_parts-IsExact :
      (ps : List Part) (t : Counts)
      → IsExact
          (tokens_of_parts ps)
          (tokens_of_parts (sweep_parts rewrite ps t).0)
          t
          (sweep_parts rewrite ps t).1
  unfolding sweep_parts tokens_of_parts
  sweep_parts-IsExact [] t = IsExact-refl 0 t
  sweep_parts-IsExact (p ∷ ps) t =
      IsExact-both (apply_rewrite-IsExact p t)
        (sweep_parts-IsExact ps (apply_rewrite (rewrite p) p t).1)

  pub sweep-IsExact :
      (ms : List Message) (t : Counts)
      → IsExact (context_tokens ms) (context_tokens (sweep rewrite ms t).0) t (sweep rewrite ms t).1
  unfolding sweep context_tokens
  sweep-IsExact [] t = IsExact-refl 0 t
  sweep-IsExact (m ∷ ms) t =
      IsExact-both (sweep_parts-IsExact m.parts t)
        (sweep-IsExact ms (sweep_parts rewrite m.parts t).1)

-- Each rewrite writes an output with fewer tokens.
abbrev pub IsShrinking : (Part → Option Rewrite) → Type 0
IsShrinking rewrite =
    (part : Part) (r : Rewrite) → rewrite part ≡ some r → r.tokens_out < r.tokens_in

-- From the counts `t` to `t'`, at least one token less for each rewrite.
abbrev pub Shrinks : Counts → Counts → Type 0
Shrinks t t' = t'.tokens_out + t.tokens_in + t'.count ≤ t'.tokens_in + t.tokens_out + t.count

module _ (rewrite : Part → Option Rewrite) (shrinking : IsShrinking rewrite) where
  apply_rewrite-Shrinks : (p : Part) (t : Counts) → Shrinks t (apply_rewrite (rewrite p) p t).1
  apply_rewrite-Shrinks p t = elim (Option-cases (rewrite p)) [
    | inl e ↦ rw e (omega arith)
    | inr (r, e) ↦ rw e (unfold add_rewrite in omega (arith, shrinking p r e))
  ]

  sweep_parts-Shrinks : (ps : List Part) (t : Counts) → Shrinks t (sweep_parts rewrite ps t).1
  unfolding sweep_parts
  sweep_parts-Shrinks [] t = omega arith
  sweep_parts-Shrinks (p ∷ ps) t =
      omega
        (arith, apply_rewrite-Shrinks p t, sweep_parts-Shrinks ps (apply_rewrite (rewrite p) p t).1)

  pub sweep-Shrinks : (ms : List Message) (t : Counts) → Shrinks t (sweep rewrite ms t).1
  unfolding sweep
  sweep-Shrinks [] t = omega arith
  sweep-Shrinks (m ∷ ms) t =
      omega
        (arith, sweep_parts-Shrinks m.parts t, sweep-Shrinks ms (sweep_parts rewrite m.parts t).1)

pub context_tokens-append :
    (ms ns : List Message) → context_tokens (ms ++ ns) ≡ context_tokens ms + context_tokens ns
unfolding context_tokens
context_tokens-append [] ns = omega arith
context_tokens-append (m ∷ ms) ns = omega (arith, context_tokens-append ms ns)
