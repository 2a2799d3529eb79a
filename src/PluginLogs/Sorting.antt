-- ===== src/PluginLogs/Sorting.antt =====
-- Sorting log records by sequence number (src/botster/pluginLogs.ts).
use botster_web.Common.{
  ℕ, ◌≤◌, List, [], ◌∷◌, ◌++◌, leb, All, arith, Bool-cases, inl, inr, All-append, All-imp,
}
use botster_web.PluginLogs.View.{PluginLogRecord, insert_by_seq, sort_by_seq, last_seq}

module _ {C : Type 0} where
  abbrev pub IsAscending : List (PluginLogRecord C) → Type 0
  IsAscending [] = Unit
  IsAscending (r ∷ rs) = All (λ q. r.seq ≤ q.seq) rs × IsAscending rs

  abbrev pub AllBelow : ℕ → List (PluginLogRecord C) → Type 0
  AllBelow n = All (λ r. r.seq ≤ n)

  abbrev pub AllAbove : ℕ → List (PluginLogRecord C) → Type 0
  AllAbove n = All (λ r. n ≤ r.seq)

  AllAbove-trans : (n m : ℕ) (rs : List (PluginLogRecord C)) → n ≤ m → AllAbove m rs → AllAbove n rs
  AllAbove-trans n m rs h = All-imp (λ r k. omega arith) rs

  pub AllBelow-trans :
      (n m : ℕ) (rs : List (PluginLogRecord C)) → n ≤ m → AllBelow n rs → AllBelow m rs
  AllBelow-trans n m rs h = All-imp (λ r k. omega arith) rs

  -- What holds of every record of a list holds of every record of the list sorted.
  module _ (P : PluginLogRecord C → Type 0) where
    All-insert_by_seq :
        (r : PluginLogRecord C) (rs : List (PluginLogRecord C))
        → P r
        → All P rs
        → All P (insert_by_seq r rs)
    unfolding insert_by_seq
    All-insert_by_seq r [] p h = (p, tt)
    All-insert_by_seq r (q ∷ qs) p h = elim (Bool-cases (leb r.seq q.seq)) [
      | inl e ↦ rw e (p, h)
      | inr e ↦ rw e (h.0, All-insert_by_seq r qs p h.1)
    ]

    pub All-sort_by_seq : (rs : List (PluginLogRecord C)) → All P rs → All P (sort_by_seq rs)
    unfolding sort_by_seq
    All-sort_by_seq [] h = tt
    All-sort_by_seq (r ∷ rs) h = All-insert_by_seq r (sort_by_seq rs) h.0 (All-sort_by_seq rs h.1)

    All-insert_by_seq_back :
        (r : PluginLogRecord C) (rs : List (PluginLogRecord C))
        → All P (insert_by_seq r rs)
        → P r × All P rs
    unfolding insert_by_seq
    All-insert_by_seq_back r [] h = (h.0, tt)
    All-insert_by_seq_back r (q ∷ qs) h = elim (Bool-cases (leb r.seq q.seq)) [
      | inl e ↦ rw e at h
      | inr e ↦
          let (first, rest) = rw e at h in
          let (mine, others) = All-insert_by_seq_back r qs rest in (mine, (first, others))
    ]

    pub All-sort_by_seq_back : (rs : List (PluginLogRecord C)) → All P (sort_by_seq rs) → All P rs
    unfolding sort_by_seq
    All-sort_by_seq_back [] h = tt
    All-sort_by_seq_back (r ∷ rs) h =
        let (mine, others) = All-insert_by_seq_back r (sort_by_seq rs) h in
        (mine, All-sort_by_seq_back rs others)

  insert_by_seq-IsAscending :
      (r : PluginLogRecord C) (rs : List (PluginLogRecord C))
      → IsAscending rs
      → IsAscending (insert_by_seq r rs)
  unfolding insert_by_seq
  insert_by_seq-IsAscending r [] h = (tt, tt)
  insert_by_seq-IsAscending r (q ∷ qs) h = elim (Bool-cases (leb r.seq q.seq)) [
    | inl e ↦ rw e ((ground (arith, e), AllAbove-trans r.seq q.seq qs (ground (arith, e)) h.0), h)
    | inr e ↦ rw e (
      All-insert_by_seq (λ p. q.seq ≤ p.seq) r qs (ground (arith, e)) h.0,
      insert_by_seq-IsAscending r qs h.1,
    )
  ]

  pub sort_by_seq-IsAscending : (rs : List (PluginLogRecord C)) → IsAscending (sort_by_seq rs)
  unfolding sort_by_seq
  sort_by_seq-IsAscending [] = tt
  sort_by_seq-IsAscending (r ∷ rs) =
      insert_by_seq-IsAscending r (sort_by_seq rs) (sort_by_seq-IsAscending rs)

  -- In ascending order the last sequence number is the greatest.
  pub last_seq-bound :
      (rs : List (PluginLogRecord C)) (otherwise : ℕ)
      → IsAscending rs
      → AllAbove otherwise rs
      → AllBelow (last_seq rs otherwise) rs × (otherwise ≤ last_seq rs otherwise)
  unfolding last_seq
  last_seq-bound [] otherwise h k = (tt, omega arith)
  last_seq-bound (r ∷ rs) otherwise h k =
      let (below, grows) = last_seq-bound rs r.seq h.1 h.0 in ((grows, below), omega arith)

  pub IsAscending-append :
      (n : ℕ) (rs qs : List (PluginLogRecord C))
      → IsAscending rs
      → IsAscending qs
      → AllBelow n rs
      → AllAbove n qs
      → IsAscending (rs ++ qs)
  IsAscending-append n [] qs h k b a = k
  IsAscending-append n (r ∷ rs) qs h k b a = (
    All-append (λ q. r.seq ≤ q.seq) rs qs h.0 (AllAbove-trans r.seq n qs b.0 a),
    IsAscending-append n rs qs h.1 k b.1 a,
  )
