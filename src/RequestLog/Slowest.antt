-- ===== src/RequestLog/Slowest.antt =====
-- What the overview of src/request_log.rs lists as the slowest requests.
use hifi_api_rust.Base.{
  ℕ, zero, suc, ◌≤◌, ◌≡◌, refl, sym, ap, subst, ◌⊎◌, inl, inr, true, false, List, [], ◌∷◌, leb,
  length, take, any, arith, Bool-cases, All, Has,
}
use hifi_api_rust.Base.Bytes.{same_refl}
use hifi_api_rust.RequestLog.Entry.{LogEntry}
use hifi_api_rust.RequestLog.Log.{RequestLog}
use hifi_api_rust.RequestLog.Summary.{insert_slow, sort_slow, same_request, first_of_each, slowest}

-- Slowest first.
abbrev IsDescending : List LogEntry → Type 0
IsDescending [] = Unit
IsDescending (e ∷ es) = All (λ t. t.latency_ms ≤ e.latency_ms) es × IsDescending es

All-insert_slow :
    (n : ℕ) (e : LogEntry) (es : List LogEntry)
    → e.latency_ms ≤ n
    → All (λ t. t.latency_ms ≤ n) es
    → All (λ t. t.latency_ms ≤ n) (insert_slow e es)
unfolding insert_slow
All-insert_slow n e [] h a = (h, tt)
All-insert_slow n e (s ∷ ss) h a = elim (Bool-cases (leb s.latency_ms e.latency_ms)) [
  | inl k ↦ rw k (h, a)
  | inr k ↦ rw k (a.0, All-insert_slow n e ss h a.1)
]

All-weaken :
    (m n : ℕ) (es : List LogEntry)
    → m ≤ n
    → All (λ t. t.latency_ms ≤ m) es
    → All (λ t. t.latency_ms ≤ n) es
All-weaken m n [] h a = tt
All-weaken m n (e ∷ es) h a = (omega (arith, a.0), All-weaken m n es h a.1)

insert_slow-IsDescending :
    (e : LogEntry) (es : List LogEntry) → IsDescending es → IsDescending (insert_slow e es)
unfolding insert_slow
insert_slow-IsDescending e [] d = (tt, tt)
insert_slow-IsDescending e (s ∷ ss) d = elim (Bool-cases (leb s.latency_ms e.latency_ms)) [
  | inl k ↦ rw k ((ground arith, All-weaken s.latency_ms e.latency_ms ss (ground arith) d.0), d)
  | inr k ↦
      rw k (All-insert_slow s.latency_ms e ss (ground arith) d.0, insert_slow-IsDescending e ss d.1)
]

sort_slow-IsDescending : (es : List LogEntry) → IsDescending (sort_slow es)
unfolding sort_slow
sort_slow-IsDescending [] = tt
sort_slow-IsDescending (e ∷ es) =
    insert_slow-IsDescending e (sort_slow es) (sort_slow-IsDescending es)

insert_slow-Has : (t e : LogEntry) (es : List LogEntry) → Has t (e ∷ es) → Has t (insert_slow e es)
unfolding insert_slow
insert_slow-Has t e [] h = h
insert_slow-Has t e (s ∷ ss) h = elim (Bool-cases (leb s.latency_ms e.latency_ms)) [
  | inl k ↦ rw k h
  | inr k ↦ rw k (elim h [
    | inl here ↦ inr (insert_slow-Has t e ss (inl here))
    | inr (inl there) ↦ inl there
    | inr (inr deep) ↦ inr (insert_slow-Has t e ss (inr deep))
  ])
]

sort_slow-Has : (t : LogEntry) (es : List LogEntry) → Has t es → Has t (sort_slow es)
unfolding sort_slow
sort_slow-Has t [] h = h
sort_slow-Has t (e ∷ es) (inl h) = insert_slow-Has t e (sort_slow es) (inl h)
sort_slow-Has t (e ∷ es) (inr h) = insert_slow-Has t e (sort_slow es) (inr (sort_slow-Has t es h))

first_of_each_old :
    (e : LogEntry) (seen es : List LogEntry)
    → any (same_request e) seen ≡ true
    → first_of_each seen (e ∷ es) ≡ first_of_each seen es
unfolding first_of_each
first_of_each_old e seen es k = rw (first_of_each, k) refl

first_of_each_new :
    (e : LogEntry) (seen es : List LogEntry)
    → any (same_request e) seen ≡ false
    → first_of_each seen (e ∷ es) ≡ e ∷ first_of_each (e ∷ seen) es
unfolding first_of_each
first_of_each_new e seen es k = rw (first_of_each, k) refl

first_of_each_nil : (seen : List LogEntry) → first_of_each seen [] ≡ []
unfolding first_of_each
first_of_each_nil seen = refl

All-first_of_each :
    (n : ℕ) (seen es : List LogEntry)
    → All (λ t. t.latency_ms ≤ n) es
    → All (λ t. t.latency_ms ≤ n) (first_of_each seen es)
All-first_of_each n seen [] a = rw (first_of_each_nil seen) tt
All-first_of_each n seen (e ∷ es) a = elim (Bool-cases (any (same_request e) seen)) [
  | inl k ↦ rw (first_of_each_old e seen es k) (All-first_of_each n seen es a.1)
  | inr k ↦ rw (first_of_each_new e seen es k) (a.0, All-first_of_each n (e ∷ seen) es a.1)
]

first_of_each-IsDescending :
    (seen es : List LogEntry) → IsDescending es → IsDescending (first_of_each seen es)
first_of_each-IsDescending seen [] d = rw (first_of_each_nil seen) tt
first_of_each-IsDescending seen (e ∷ es) d = elim (Bool-cases (any (same_request e) seen)) [
  | inl k ↦ rw (first_of_each_old e seen es k) (first_of_each-IsDescending seen es d.1)
  | inr k ↦ rw (first_of_each_new e seen es k) (
    All-first_of_each e.latency_ms (e ∷ seen) es d.0,
    first_of_each-IsDescending (e ∷ seen) es d.1,
  )
]

-- A request of the list with the same path and detail that took at least as long.
abbrev pub IsListed : LogEntry → List LogEntry → Type 0
IsListed e listed =
    (s : LogEntry) × Has s listed × (same_request e s ≡ true) × (e.latency_ms ≤ s.latency_ms)

All-Has :
    (n : ℕ) (e : LogEntry) (es : List LogEntry)
    → All (λ t. t.latency_ms ≤ n) es
    → Has e es
    → e.latency_ms ≤ n
All-Has n e [] a h = absurd h
All-Has n e (x ∷ es) a (inl h) = rw h a.0
All-Has n e (x ∷ es) a (inr h) = All-Has n e es a.1 h

same_request_refl : (e : LogEntry) → same_request e e ≡ true
same_request_refl e = ground (arith, same_refl e.path, same_refl e.detail)

first_of_each-IsListed :
    (seen es : List LogEntry) (e : LogEntry)
    → IsDescending es
    → Has e es
    → (any (same_request e) seen ≡ true) ⊎ IsListed e (first_of_each seen es)
first_of_each-IsListed seen [] e d h = absurd h
first_of_each-IsListed seen (x ∷ es) e d (inl h) = elim (Bool-cases (any (same_request x) seen)) [
  | inl k ↦ inl (subst (λ y. any (same_request y) seen ≡ true) (sym h) k)
  | inr k ↦ inr (
      subst (λ l. IsListed e l) (sym (first_of_each_new x seen es k))
        (
          x,
          inl refl,
          subst (λ y. same_request y x ≡ true) (sym h) (same_request_refl x),
          subst (λ y. y.latency_ms ≤ x.latency_ms) (sym h) (omega arith),
        ))
]
first_of_each-IsListed seen (x ∷ es) e d (inr h) = elim (Bool-cases (any (same_request x) seen)) [
  | inl k ↦ rw (first_of_each_old x seen es k) (first_of_each-IsListed seen es e d.1 h)
  | inr k ↦
      rw (first_of_each_new x seen es k) (elim (first_of_each-IsListed (x ∷ seen) es e d.1 h) [
        | inl old ↦ elim (Bool-cases (same_request e x)) [
          | inl same_x ↦ inr (x, inl refl, same_x, All-Has x.latency_ms e es d.0 h)
          | inr other ↦ inl (ground arith)
        ]
        | inr (s, found, same_key, below) ↦ inr (s, inr found, same_key, below)
      ])
]

take-slow :
    (n : ℕ) (s : LogEntry) (es : List LogEntry)
    → IsDescending es
    → Has s es
    → Has s (take n es)
      ⊎ ((length (take n es) ≡ n) × All (λ t. s.latency_ms ≤ t.latency_ms) (take n es))
take-slow zero s es d h = inr (refl, tt)
take-slow (suc n) s [] d h = absurd h
take-slow (suc n) s (e ∷ es) d (inl h) = inl (inl h)
take-slow (suc n) s (e ∷ es) d (inr h) = elim (take-slow n s es d.1 h) [
  | inl found ↦ inl (inr found)
  | inr (full, slower) ↦ inr (ap suc full, (All-Has e.latency_ms s es d.0 h, slower))
]

All-lower :
    (m n : ℕ) (es : List LogEntry)
    → m ≤ n
    → All (λ t. n ≤ t.latency_ms) es
    → All (λ t. m ≤ t.latency_ms) es
All-lower m n [] h a = tt
All-lower m n (e ∷ es) h a = (omega (arith, a.0), All-lower m n es h a.1)

-- Every logged request is accounted for in the list of the slowest: a request with the same path and
-- detail is listed that took at least as long, or five requests are listed and none of them was faster.
pub slowest-covers :
    (log : RequestLog) (e : LogEntry)
    → Has e log.entries
    → IsListed e (slowest log)
      ⊎ ((length (slowest log) ≡ 5) × All (λ t. e.latency_ms ≤ t.latency_ms) (slowest log))
unfolding slowest
slowest-covers log e h =
    let sorted = sort_slow log.entries in
    let d = sort_slow-IsDescending log.entries in
    elim (first_of_each-IsListed [] sorted e d (sort_slow-Has e log.entries h)) [
      | inl impossible ↦ cc
      | inr (s, found, same_key, below) ↦
          elim (take-slow 5 s (first_of_each [] sorted) (first_of_each-IsDescending [] sorted d)
            found) [
              | inl shown ↦ inl (s, shown, same_key, below)
              | inr (full, slower) ↦ inr (full, All-lower e.latency_ms s.latency_ms _ below slower)
            ]
    ]
