-- ===== src/Plugin/Sequences/Wrap.antt =====
-- The set of sent numbers after the counter has wrapped around.
use zenoh_plugin_lcm.Base.{ℕ, ◌≤◌, ◌≡◌, arith, true, List, [], ◌∷◌, All}
use zenoh_plugin_lcm.Plugin.Sequences.{SentSequences, has, record_sent}
use zenoh_plugin_lcm.Plugin.Sequences.Window.{has-record_sent}

-- The records of one send after another.
abbrev pub record_all : List ℕ → SentSequences → SentSequences
record_all [] seqs = seqs
record_all (n ∷ ns) seqs = record_all ns (record_sent n seqs)

has-record_sent_above :
    (m n : ℕ) (seqs : SentSequences) → n ≤ m → has m seqs ≡ true → has m (record_sent n seqs) ≡ true
has-record_sent_above m n seqs h known = ground (arith, has-record_sent m n seqs)

-- A number that is in the set stays there while only smaller numbers are sent, however many: so it is
-- with a number from before a wrap-around of the counter, since no number after it comes near.
pub has-record_all :
    (m : ℕ) (ns : List ℕ) (seqs : SentSequences)
    → All (λ n. n ≤ m) ns
    → has m seqs ≡ true
    → has m (record_all ns seqs) ≡ true
has-record_all m [] seqs h known = known
has-record_all m (n ∷ ns) seqs (first, h) known =
    has-record_all m ns (record_sent n seqs) h (has-record_sent_above m n seqs first known)
