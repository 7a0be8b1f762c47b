-- ===== src/Plugin/Sequences.antt =====
-- zenoh-plugin-lcm/src/zenoh_to_lcm.rs: the set of the sequence numbers that the bridge has sent.
pub mod Window
pub mod Wrap
use zenoh_plugin_lcm.Base.{
  ℕ, ◌-◌, ◌≡◌, Bool, true, false, ◌||◌, List, [], ◌∷◌, length, ◌==◌, ltb, leb, if◌then◌else◌,
}

-- `HashSet<u32>`, as a list without repetition.
abbrev pub SentSequences : Type 0
SentSequences = List ℕ

unfoldable pub has : ℕ → SentSequences → Bool
has n [] = false
has n (s ∷ seqs) = s == n || has n seqs

-- `HashSet::insert`
unfoldable pub add : ℕ → SentSequences → SentSequences
add n seqs = if has n seqs then seqs else n ∷ seqs

-- `HashSet::remove`, whose result is `has` before the call.
unfoldable pub without : ℕ → SentSequences → SentSequences
without n [] = []
without n (s ∷ seqs) = let rest = without n seqs in if s == n then rest else s ∷ rest

-- `HashSet::retain` of the numbers from a cutoff on.
unfoldable pub retain_from : ℕ → SentSequences → SentSequences
retain_from cutoff [] = []
retain_from cutoff (s ∷ seqs) =
    let rest = retain_from cutoff seqs in if leb cutoff s then s ∷ rest else rest

-- `saturating_sub` is the subtraction of ℕ.
unfoldable pub prune_sent_sequences : SentSequences → ℕ → SentSequences
prune_sent_sequences seqs latest_seq =
    if ltb 10000 (length seqs) then retain_from (latest_seq - 5000) seqs else seqs

-- The numbers after a successful send: the number goes in, and the set is pruned.
unfoldable pub record_sent : ℕ → SentSequences → SentSequences
record_sent seq seqs = prune_sent_sequences (add seq seqs) seq
