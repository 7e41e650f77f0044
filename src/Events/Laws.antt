-- ===== src/Events/Laws.antt =====
-- What `current_resolutions` and `final_acceptance` make of a list of events.
use scope_proof.Base.{
  ℕ, ◌≡◌, refl, String, Bool, true, false, ◌&&◌, Option, none, some, List, [], ◌∷◌, ◌++◌, map,
  Result, ok, map_ok, if◌then◌else◌, ◌==◌, nat_eq, string_eq, option_eq, Dict, keys, lookup,
  sorted_items, lookup-insert, lookup-nil, lookup-sorted_items, insert-nodup, sorted_items-nodup,
  find_last, find_last-append, last_by, nodup, contains, arith, Option-cases, Bool-cases, inl, inr,
  ◌⊎◌, Entries, insert-Entries, sorted_items-Entries, lookup-of_absent, ◌∙◌, subst, >>=-eq_ok,
}
use scope_proof.Schema.{ResolutionEvent, HumanResolution}
use scope_proof.Events.{
  to_resolution, fill_latest, record_event, current_resolutions, final_acceptance, flag,
  is_final_event,
}

-- The event decides criterion `c` in revision `n`.
abbrev pub decides : ℕ → String → ResolutionEvent → Bool
decides n c e = e.criterion_id == some c && e.criteria_revision_number == n

-- The last event that decides `c`.
abbrev pub latest_event : ℕ → String → List ResolutionEvent → Option ResolutionEvent
latest_event n c = find_last (decides n c)

abbrev pub or_else {ℓ} : {A : Type ℓ} → Option A → Option A → Option A
or_else (some a) o = some a
or_else none o = o

lookup-fill_latest :
    (n : ℕ) (es : List ResolutionEvent) (d : Dict String ResolutionEvent) (c : String)
    → lookup c (fill_latest n es d) ≡ or_else (latest_event n c es) (lookup c d)
unfolding fill_latest
lookup-fill_latest n [] d c = refl
lookup-fill_latest n (e ∷ es) d c = elim (Option-cases e.criterion_id) [
  | inl absent ↦ ground (arith, lookup-fill_latest n es (record_event n e d) c)
  | inr (k, here) ↦
      ground (arith, lookup-fill_latest n es (record_event n e d) c, lookup-insert c k e d)
]

fill_latest-nodup :
    (n : ℕ) (es : List ResolutionEvent) (d : Dict String ResolutionEvent)
    → nodup (keys d) ≡ true
    → nodup (keys (fill_latest n es d)) ≡ true
unfolding fill_latest
fill_latest-nodup n [] d h = h
fill_latest-nodup n (e ∷ es) d h = elim (Option-cases e.criterion_id) [
  | inl absent ↦ fill_latest-nodup n es (record_event n e d) (ground arith)
  | inr (k, here) ↦
      fill_latest-nodup n es (record_event n e d) (ground (arith, insert-nodup k e d h))
]

abbrev pub HasKey : String → ResolutionEvent → Type 0
HasKey k e = e.criterion_id ≡ some k

pub fill_latest-Entries :
    (n : ℕ) (es : List ResolutionEvent) (d : Dict String ResolutionEvent)
    → Entries HasKey d
    → Entries HasKey (fill_latest n es d)
unfolding fill_latest
fill_latest-Entries n [] d h = h
fill_latest-Entries n (e ∷ es) d h =
    fill_latest-Entries n es (record_event n e d) (step (Option-cases e.criterion_id))
  where
    step :
        (e.criterion_id ≡ none) ⊎ ((k : String) × (e.criterion_id ≡ some k))
        → Entries HasKey (record_event n e d)
    step (inl absent) = rw (absent, record_event) h
    step (inr (k, here)) = elim (Bool-cases (e.criteria_revision_number == n)) [
      | inl active ↦ rw (here, active, record_event) (insert-Entries HasKey k e d here h)
      | inr other ↦ rw (here, other, record_event) h
    ]

-- Nothing stands for nothing, and a resolution for the event that it is built from.
abbrev pub StandsFor : Option ResolutionEvent → Option HumanResolution → Type 0
StandsFor none none = Unit
StandsFor (some e) (some r) = to_resolution e ≡ ok r
StandsFor none (some r) = ⊥
StandsFor (some e) none = ⊥

abbrev pub resolution_for : String → List HumanResolution → Option HumanResolution
resolution_for c = last_by (λ r. r.criterion_id) c

to_resolution-criterion_id :
    (e : ResolutionEvent) (k : String) (r : HumanResolution)
    → HasKey k e
    → to_resolution e ≡ ok r
    → r.criterion_id ≡ k
unfolding to_resolution
to_resolution-criterion_id e k r h p = ground arith

abbrev resolve : String × ResolutionEvent → Result HumanResolution
resolve (_, e) = to_resolution e

StandsFor-cons :
    (c k : String) (e : ResolutionEvent) (d : Dict String ResolutionEvent) (r : HumanResolution)
    (rs : List HumanResolution)
    → HasKey k e
    → to_resolution e ≡ ok r
    → contains (keys d) k ≡ false
    → StandsFor (lookup c d) (resolution_for c rs)
    → StandsFor (lookup c ((k, e) ∷ d)) (resolution_for c (r ∷ rs))
unfolding lookup
StandsFor-cons c k e d r rs h p fresh rest = elim (Bool-cases (c == k)) [
  | inl same ↦
      let here : c ≡ k = ground arith in
      let gone : lookup c d ≡ none = rw here (lookup-of_absent k d fresh) in
      let none_later : resolution_for c rs ≡ none = nothing gone rest in
      let name : (r.criterion_id == c) ≡ true =
        ground (arith, to_resolution-criterion_id e k r h p) in
      rw (same, none_later, name) p
  | inr other ↦
      let name : (r.criterion_id == c) ≡ false =
        ground (arith, to_resolution-criterion_id e k r h p) in
      rw other (keep (resolution_for c rs) name rest)
]
  where
    nothing :
        {o : Option ResolutionEvent} {q : Option HumanResolution}
        → o ≡ none
        → StandsFor o q
        → q ≡ none
    nothing {o = none} {q = none} e s = refl
    nothing {o = none} {q = some _} e s = absurd s
    nothing {o = some _} {q = q} e s = cc

    keep :
        (q : Option HumanResolution)
        → (r.criterion_id == c) ≡ false
        → StandsFor (lookup c d) q
        → StandsFor
            (lookup c d)
            (elim q [ some y ↦ some y | none ↦ if r.criterion_id == c then some r else none ])
    keep none differ s = rw differ s
    keep (some y) differ s = s

map_ok-StandsFor :
    (c : String) (d : Dict String ResolutionEvent) (rs : List HumanResolution)
    → nodup (keys d) ≡ true
    → Entries HasKey d
    → map_ok resolve d ≡ ok rs
    → StandsFor (lookup c d) (resolution_for c rs)
unfolding lookup
map_ok-StandsFor c [] [] u h p = tt
map_ok-StandsFor c [] (r ∷ rs) u h p = absurd (ground arith)
map_ok-StandsFor c ((k, e) ∷ d) rs u h p =
    let (r, pr, q) = >>=-eq_ok (to_resolution e) _ p in
    let (rs', prs, done) = >>=-eq_ok (map_ok resolve d) _ q in
    let built : rs ≡ r ∷ rs' = ground arith in
    rw built (
      StandsFor-cons c k e d r rs' h.0 pr (ground arith)
        (map_ok-StandsFor c d rs' (ground arith) h.1 prs))

-- What `current_resolutions` returns holds, for each criterion, the resolution that its latest
-- event in the revision stands for, and nothing for a criterion that no event decides.
pub current_resolutions-latest :
    (events : List ResolutionEvent) (n : ℕ) (c : String) {rs : List HumanResolution}
    → current_resolutions events (some n) ≡ ok rs
    → StandsFor (latest_event n c events) (resolution_for c rs)
unfolding current_resolutions
current_resolutions-latest events n c {rs} p =
    let found : lookup c (sorted_items (fill_latest n events [])) ≡ latest_event n c events =
      lookup-sorted_items c (fill_latest n events [])
      ∙ lookup-fill_latest n events [] c
      ∙ settle (latest_event n c events) in
    subst (λ o. StandsFor o (resolution_for c rs)) found
      (map_ok-StandsFor c (sorted_items (fill_latest n events [])) rs
        (sorted_items-nodup (fill_latest n events []) (fill_latest-nodup n events [] refl))
        (sorted_items-Entries HasKey (fill_latest n events []) (fill_latest-Entries n events [] tt))
        p)
  where
    settle :
        (o : Option ResolutionEvent)
        → or_else o (lookup {K = String} {V = ResolutionEvent} c []) ≡ o
    settle none = lookup-nil c
    settle (some e) = refl

resolution_for-of_absent :
    (c : String) (rs : List HumanResolution)
    → contains (map (λ r. r.criterion_id) rs) c ≡ false
    → resolution_for c rs ≡ none
resolution_for-of_absent c [] h = refl
resolution_for-of_absent c (r ∷ rs) h = ground (arith, resolution_for-of_absent c rs)

map_ok-keys :
    (d : Dict String ResolutionEvent) (rs : List HumanResolution)
    → Entries HasKey d
    → map_ok resolve d ≡ ok rs
    → map (λ r. r.criterion_id) rs ≡ keys d
map_ok-keys [] rs h p = ground arith
map_ok-keys ((k, e) ∷ d) rs h p =
    let (r, pr, q) = >>=-eq_ok (to_resolution e) _ p in
    let (rs', prs, done) = >>=-eq_ok (map_ok resolve d) _ q in
    let built : rs ≡ r ∷ rs' = ground arith in
    rw (built, to_resolution-criterion_id e k r h.0 pr, map_ok-keys d rs' h.1 prs)

-- No criterion has two current resolutions.
pub current_resolutions-nodup :
    (events : List ResolutionEvent) (n : ℕ) {rs : List HumanResolution}
    → current_resolutions events (some n) ≡ ok rs
    → nodup (map (λ r. r.criterion_id) rs) ≡ true
unfolding current_resolutions
current_resolutions-nodup events n {rs} p =
    rw
      (map_ok-keys (sorted_items (fill_latest n events [])) rs
        (sorted_items-Entries HasKey (fill_latest n events []) (fill_latest-Entries n events [] tt))
        p)
      (sorted_items-nodup (fill_latest n events []) (fill_latest-nodup n events [] refl))

-- A recorded final-acceptance event decides the flag of its revision, and no other event does.
pub final_acceptance-append :
    (events : List ResolutionEvent) (e : ResolutionEvent) (n : ℕ)
    → final_acceptance (events ++ e ∷ []) n
      ≡ (if is_final_event n e then flag (some e) else final_acceptance events n)
unfolding final_acceptance
final_acceptance-append events e n = ground (arith, find_last-append (is_final_event n) events e)

-- A recorded decision is the latest of its criterion and revision, and leaves every other criterion
-- and revision as it was.
pub latest_event-append :
    (events : List ResolutionEvent) (e : ResolutionEvent) (n : ℕ) (c : String)
    → latest_event n c (events ++ e ∷ [])
      ≡ (if decides n c e then some e else latest_event n c events)
latest_event-append events e n c = find_last-append (decides n c) events e
