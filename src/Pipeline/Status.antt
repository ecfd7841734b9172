-- ===== src/Pipeline/Status.antt =====
-- src/pipeline/mod.rs: the status word that the two ends of a pipeline share.
pub mod Flags
use thubo.Prelude.{ℕ, ◌-◌, ◌*◌, ◌^◌, ◌%◌, bit_and, bit_or, Bool, not, ◌==◌}
use thubo.Protocol.Priority
use thubo.Protocol.Priority.{Priority}

-- The atomic u16. Each operation on it is one atomic step, and returns what was there before.
abbrev pub Status : Type 0
Status = ℕ

abbrev pub congested_flag : ℕ
congested_flag = 1

abbrev pub flush_flag : ℕ
flush_flag = 2 ^ Priority.num

abbrev pub disabled : ℕ
disabled = flush_flag * 2 ^ Priority.num

abbrev pub backoff : ℕ
backoff = disabled * 2

unfoldable pub congested : Priority → ℕ
unfolding Priority.to_u8
congested p = congested_flag * 2 ^ Priority.to_u8 p % 2 ^ 16

unfoldable pub flush : Priority → ℕ
unfolding Priority.to_u8
flush p = flush_flag * 2 ^ Priority.to_u8 p % 2 ^ 16

unfoldable pub any : ℕ → ℕ → Bool
any v f = not (bit_and v f == 0)

unfoldable pub set : ℕ → Status → ℕ × Status
set f s = (s, bit_or s f)

unfoldable pub unset : ℕ → Status → ℕ × Status
unset f s = (s, bit_and s (2 ^ 16 - 1 - f))
