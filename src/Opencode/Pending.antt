-- ===== src/Opencode/Pending.antt =====
-- About the savings that wait for a call's output (precall-state.ts).
use ctxlite.Prelude.{
  ◌≡◌, refl, Bool, true, not, none, some, [], ◌∷◌, ◌++◌, arith, Text, str, text_eq, text_eq_iff,
  text_eq_refl, dict_get, get-set, get-delete, all, ◌==◌, if◌then◌else◌,
}
use ctxlite.Opencode.{PrecallPending, Plugin, key, mark_precall_pending, take_precall_pending}

-- a text without a colon
unfoldable pub has_no_colon : Text → Bool
has_no_colon s = all (λ c. not (c == b':')) s

colon-injective :
    (s t a b : Text)
    → has_no_colon s ≡ true
    → has_no_colon t ≡ true
    → s ++ (b':' ∷ a) ≡ t ++ (b':' ∷ b)
    → (s ≡ t) × (a ≡ b)
unfolding has_no_colon all
colon-injective [] [] a b hs ht e = (refl, cc)
colon-injective [] (d ∷ t) a b hs ht e = let first : b':' ≡ d = cc in ground (arith, first)
colon-injective (c ∷ s) [] a b hs ht e = let first : c ≡ b':' = cc in ground (arith, first)
colon-injective (c ∷ s) (d ∷ t) a b hs ht e =
    let first : c ≡ d = cc in
    let tail : s ++ (b':' ∷ a) ≡ t ++ (b':' ∷ b) = cc in
    let (same, rest) = colon-injective s t a b (ground arith) (ground arith) tail in (cc, rest)

-- Session ids without a colon: the key of a call tells the session and the call.
key-injective :
    (s t a b : Text)
    → has_no_colon s ≡ true
    → has_no_colon t ≡ true
    → key s a ≡ key t b
    → (s ≡ t) × (a ≡ b)
unfolding key str
key-injective s t a b hs ht e = colon-injective s t a b hs ht e

take_precall_pending-first :
    (session call : Text) (p : Plugin)
    → (take_precall_pending session call p).0 ≡ dict_get (key session call) p.pending
unfolding take_precall_pending
take_precall_pending-first session call p = ground arith

get-take :
    (session call k : Text) (p : Plugin)
    → dict_get k (take_precall_pending session call p).1.pending
      ≡ (if text_eq (key session call) k then none else dict_get k p.pending)
unfolding take_precall_pending
get-take session call k p =
    ground (arith, get-delete (key session call) k p.pending, text_eq_iff (key session call) k)

get-mark :
    (session call k : Text) (entry : PrecallPending) (p : Plugin)
    → dict_get k (mark_precall_pending session call entry p).pending
      ≡ (if text_eq (key session call) k then some entry else dict_get k p.pending)
unfolding mark_precall_pending
get-mark session call k entry p = get-set (key session call) k entry p.pending

-- The saving that is marked for a call is the one that this call takes, and it is gone afterwards; any
-- other call takes what it would have taken without the two, where neither session id has a colon.
pub take-mark :
    (session call other_session other_call : Text) (entry : PrecallPending) (p : Plugin)
    → has_no_colon session ≡ true
    → has_no_colon other_session ≡ true
    → ¬ ((session ≡ other_session) × (call ≡ other_call))
    → let (taken, q) =
        take_precall_pending session call (mark_precall_pending session call entry p) in
      (taken ≡ some entry)
      × ((take_precall_pending session call q).0 ≡ none)
      × ((take_precall_pending other_session other_call q).0
          ≡ (take_precall_pending other_session other_call p).0)
take-mark session call other_session other_call entry p hs ho differ =
    let k = key session call in
    let j = key other_session other_call in
    let marked = mark_precall_pending session call entry p in
    let q = (take_precall_pending session call marked).1 in
    ground (
      arith,
      text_eq_refl k,
      text_eq_iff k j,
      key-injective session other_session call other_call hs ho,
      get-mark session call k entry p,
      get-mark session call j entry p,
      get-take session call k marked,
      get-take session call j marked,
      take_precall_pending-first session call marked,
      take_precall_pending-first session call q,
      take_precall_pending-first other_session other_call q,
      take_precall_pending-first other_session other_call p,
    )
