-- ===== src/Plugin/Sequences/Window.antt =====
-- What the set of sent numbers holds, and how large it grows.
use zenoh_plugin_lcm.Base.{
  ℕ, zero, suc, ◌+◌, ◌-◌, ◌≤◌, ◌<◌, ◌≡◌, refl, arith, true, false, ◌||◌, ◌&&◌, not, [], ◌∷◌, length,
  ◌==◌, leb,
}
use zenoh_plugin_lcm.Plugin.Sequences.{
  SentSequences, has, add, without, retain_from, prune_sent_sequences, record_sent,
}

-- The numbers of the list are distinct.
unfoldable pub IsDistinct : SentSequences → Type 0
IsDistinct [] = true ≡ true
IsDistinct (s ∷ seqs) = (has s seqs ≡ false) × IsDistinct seqs

pub has-without :
    (n m : ℕ) (seqs : SentSequences) → has n (without m seqs) ≡ has n seqs && not (m == n)
unfolding has without
has-without n m [] = refl
has-without n m (s ∷ seqs) = ground (arith, has-without n m seqs)

has-retain_from :
    (n cutoff : ℕ) (seqs : SentSequences)
    → has n (retain_from cutoff seqs) ≡ has n seqs && leb cutoff n
unfolding has retain_from
has-retain_from n cutoff [] = refl
has-retain_from n cutoff (s ∷ seqs) = ground (arith, has-retain_from n cutoff seqs)

has-add : (n m : ℕ) (seqs : SentSequences) → has n (add m seqs) ≡ (m == n) || has n seqs
unfolding has add
has-add n m seqs = ground arith

add-IsDistinct : (n : ℕ) (seqs : SentSequences) → IsDistinct seqs → IsDistinct (add n seqs)
unfolding add IsDistinct
add-IsDistinct n seqs d = ground arith

without-IsDistinct : (n : ℕ) (seqs : SentSequences) → IsDistinct seqs → IsDistinct (without n seqs)
unfolding without IsDistinct
without-IsDistinct n [] d = refl
without-IsDistinct n (s ∷ seqs) (a, d) =
    ground (arith, has-without s n seqs, without-IsDistinct n seqs d)

retain_from-IsDistinct :
    (n : ℕ) (seqs : SentSequences) → IsDistinct seqs → IsDistinct (retain_from n seqs)
unfolding retain_from IsDistinct
retain_from-IsDistinct n [] d = refl
retain_from-IsDistinct n (s ∷ seqs) (a, d) =
    ground (arith, has-retain_from s n seqs, retain_from-IsDistinct n seqs d)

record_sent-IsDistinct :
    (n : ℕ) (seqs : SentSequences) → IsDistinct seqs → IsDistinct (record_sent n seqs)
unfolding record_sent prune_sent_sequences
record_sent-IsDistinct n seqs d = ground (
  arith,
  add-IsDistinct n seqs d,
  retain_from-IsDistinct (n - 5000) (add n seqs) (add-IsDistinct n seqs d),
)

-- After a send, the set holds the new number and the numbers that it held, except that a set of more
-- than 10000 numbers keeps only those that are at most 5000 below the new one.
pub has-record_sent :
    (m n : ℕ) (seqs : SentSequences)
    → has m (record_sent n seqs)
      ≡ (n == m || has m seqs) && (leb (length (add n seqs)) 10000 || leb (n - 5000) m)
unfolding record_sent prune_sent_sequences
has-record_sent m n seqs =
    ground (arith, has-add m n seqs, has-retain_from m (n - 5000) (add n seqs))

without-absent : (n : ℕ) (seqs : SentSequences) → has n seqs ≡ false → without n seqs ≡ seqs
unfolding has without
without-absent n [] h = refl
without-absent n (s ∷ seqs) h = ground (arith, without-absent n seqs)

length-without :
    (n : ℕ) (seqs : SentSequences) → IsDistinct seqs → length seqs ≤ 1 + length (without n seqs)
unfolding without IsDistinct
length-without n [] d = ground arith
length-without n (s ∷ seqs) (a, d) = ground (arith, without-absent n seqs, length-without n seqs d)

-- Distinct numbers of an interval are at most as many as its numbers.
length-interval :
    (a k : ℕ) (seqs : SentSequences)
    → IsDistinct seqs
    → ((m : ℕ) → has m seqs ≡ true → (a ≤ m) × (m < a + k))
    → length seqs ≤ k
length-interval a zero [] d within = ground arith
length-interval a zero (s ∷ seqs) d within = unfold has in ground (arith, within s)
length-interval a (suc k) seqs d within =
    let fewer =
      length-interval a k (without (a + k) seqs) (without-IsDistinct (a + k) seqs d)
        (λ m h. ground (arith, within m, has-without m (a + k) seqs)) in
    omega (arith, fewer, length-without (a + k) seqs d)

length-add : (n : ℕ) (seqs : SentSequences) → length (add n seqs) ≤ 1 + length seqs
unfolding add
length-add n seqs = ground arith

length-record_sent :
    (n : ℕ) (seqs : SentSequences)
    → IsDistinct seqs
    → length seqs ≤ 10000
    → ((m : ℕ) → has m seqs ≡ true → m ≤ n)
    → length (record_sent n seqs) ≤ 10000
unfolding record_sent prune_sent_sequences
length-record_sent n seqs d small below = ground (
  arith,
  length-interval (n - 5000) 5001 (retain_from (n - 5000) (add n seqs))
      (retain_from-IsDistinct (n - 5000) (add n seqs) (add-IsDistinct n seqs d))
      (λ m h. ground (arith, has-retain_from m (n - 5000) (add n seqs), has-add m n seqs, below m)),
)

-- A set of distinct numbers, at most 10000 of them and none above the number that a send records, is
-- again such a set after it: the numbers are distinct, at most 10000 of them, and the new one is there.
pub record_sent-IsDistinct-length :
    (n : ℕ) (seqs : SentSequences)
    → IsDistinct seqs
    → length seqs ≤ 10000
    → ((m : ℕ) → has m seqs ≡ true → m ≤ n)
    → IsDistinct (record_sent n seqs)
      × (length (record_sent n seqs) ≤ 10000)
      × (has n (record_sent n seqs) ≡ true)
      × ((m : ℕ) → has m (record_sent n seqs) ≡ true → m ≤ n)
record_sent-IsDistinct-length n seqs d small below = (
  record_sent-IsDistinct n seqs d,
  length-record_sent n seqs d small below,
  ground (arith, has-record_sent n n seqs),
  λ m h. ground (arith, has-record_sent m n seqs, below m),
)
