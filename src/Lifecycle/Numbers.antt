-- ===== src/Lifecycle/Numbers.antt =====
-- The revision numbers of the analyses of a review, when the active one joins the history.
use scope_proof.Base.{
  ◌≡◌, refl, ap, ℕ, ◌+◌, false, Option, none, some, List, [], ◌∷◌, ◌++◌, any, leb, ◌==◌, nat_eq,
  arith, filter, filter-eq_nil, find_last-eq_none, any-eq_false→All, All-weaken,
}
use scope_proof.Schema.{ReviewBundle, ReviewState, ResolutionEvent}
use scope_proof.Events.{final_acceptance, flag, is_final_event}
use scope_proof.Validation.States.{known_revisions, out_of_order, is_stray}

pub known_revisions-append :
    (xs ys : List ReviewBundle)
    → known_revisions (xs ++ ys) ≡ known_revisions xs ++ known_revisions ys
known_revisions-append [] ys = refl
known_revisions-append (x ∷ xs) ys = split x.criteria_revision_number (known_revisions-append xs ys)
  where
    split :
        (o : Option ℕ)
        → known_revisions (xs ++ ys) ≡ known_revisions xs ++ known_revisions ys
        → elim o [ none ↦ known_revisions (xs ++ ys) | some n ↦ n ∷ known_revisions (xs ++ ys) ]
          ≡ elim o [ none ↦ known_revisions xs | some n ↦ n ∷ known_revisions xs ]
            ++ known_revisions ys
    split none p = p
    split (some n) p = ap (λ ns. n ∷ ns) p

-- Numbers below `n` are below `n + 1`.
pub below_next :
    (n : ℕ) (ns : List ℕ) → any (λ m. leb n m) ns ≡ false → any (λ m. leb (n + 1) m) ns ≡ false
below_next n [] h = refl
below_next n (m ∷ ns) h = ground (arith, below_next n ns)

pub below_next-snoc :
    (n : ℕ) (ns : List ℕ)
    → any (λ m. leb n m) ns ≡ false
    → any (λ m. leb (n + 1) m) (ns ++ n ∷ []) ≡ false
below_next-snoc n [] h = ground arith
below_next-snoc n (m ∷ ns) h = ground (arith, below_next-snoc n ns)

-- A number above all others may join the end.
pub out_of_order-snoc :
    (n : ℕ) (ns : List ℕ)
    → any (λ m. leb n m) ns ≡ false
    → out_of_order ns ≡ false
    → out_of_order (ns ++ n ∷ []) ≡ false
out_of_order-snoc n [] h k = refl
out_of_order-snoc n (m ∷ []) h k = ground arith
out_of_order-snoc n (m ∷ l ∷ ns) h k = ground (arith, out_of_order-snoc n (l ∷ ns))

module _ (s : ReviewState) (h : any (is_stray s) s.resolution_events ≡ false) where
  abbrev next : ℕ
  next = s.criteria_revision.number + 1

  is_final_next : (e : ResolutionEvent) → is_stray s e ≡ false → is_final_event next e ≡ false
  is_final_next e p = ground arith

  is_active_next :
      (e : ResolutionEvent) → is_stray s e ≡ false → (e.criteria_revision_number == next) ≡ false
  is_active_next e p = ground arith

  -- No event belongs to the next revision.
  pub active_events-next : filter (λ e. e.criteria_revision_number == next) s.resolution_events ≡ []
  active_events-next =
      filter-eq_nil (λ e. e.criteria_revision_number == next) s.resolution_events
        (All-weaken s.resolution_events is_active_next
          (any-eq_false→All (is_stray s) s.resolution_events h))

  pub final_acceptance-next : final_acceptance s.resolution_events next ≡ false
  unfolding final_acceptance flag
  final_acceptance-next =
      rw
        (find_last-eq_none (is_final_event next) s.resolution_events (
          All-weaken s.resolution_events is_final_next
            (any-eq_false→All (is_stray s) s.resolution_events h)))
        refl
