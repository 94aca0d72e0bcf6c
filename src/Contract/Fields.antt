-- ===== src/Contract/Fields.antt =====
-- Reading the three fields of an oracle message on the stack (contract/settlement.go,
-- `addFieldExtract`), in any VM that obeys the opcode laws.
use hedge_arkade.Common.{
  length, take, drop, Bytes, ℕ, ◌+◌, ◌≤◌, ◌<◌, ◌≡◌, refl, some, List, ◌∷◌, arith,
}
use hedge_arkade.Common.Int.{ℤ, pos, int64_min_abs}
use hedge_arkade.Contract.Library.{Library}
use hedge_arkade.Contract.Oracle.{le_bytes, oracle_message}
use hedge_arkade.Contract.Vm.{Vm, Spend, run}
use hedge_arkade.Contract.Script.{field_extract}

-- The three fields of a message.
field_timestamp : (ts sq pr : ℕ) → take 8 (drop 0 (oracle_message ts sq pr)) ≡ le_bytes 8 ts
unfolding oracle_message le_bytes
field_timestamp ts sq pr = refl

field_sequence : (ts sq pr : ℕ) → take 8 (drop 8 (oracle_message ts sq pr)) ≡ le_bytes 8 sq
unfolding oracle_message le_bytes
field_sequence ts sq pr = refl

field_price : (ts sq pr : ℕ) → take 8 (drop 16 (oracle_message ts sq pr)) ≡ le_bytes 8 pr
unfolding oracle_message le_bytes
field_price ts sq pr = refl

pub length-oracle_message : (ts sq pr : ℕ) → length (oracle_message ts sq pr) ≡ 24
unfolding oracle_message le_bytes
length-oracle_message ts sq pr = refl

module _ {lib : Library} {num : ℤ → Bytes} {tx : Spend} (vm : Vm lib num tx) where
  run-field_extract :
      (offset v : ℕ) (msg : Bytes) (s a : List Bytes)
      → offset + 8 ≤ length msg
      → take 8 (drop offset msg) ≡ le_bytes 8 v
      → v < int64_min_abs
      → run vm (field_extract lib num offset) (msg ∷ s, a) ≡ some (num (pos v) ∷ s, a)
  unfolding run field_extract
  run-field_extract offset v msg s a long at small =
      simp (vm.step-int, vm.step-substr msg offset 8 s a long, at, vm.step-bin2num v s a small)

  module _ (ts sq pr : ℕ) where
    pub run-timestamp :
        (s a : List Bytes)
        → ts < int64_min_abs
        → run vm (field_extract lib num 0) (oracle_message ts sq pr ∷ s, a)
          ≡ some (num (pos ts) ∷ s, a)
    run-timestamp s a h =
        run-field_extract 0 ts (oracle_message ts sq pr) s a
          (omega (arith, length-oracle_message ts sq pr)) (field_timestamp ts sq pr) h

    pub run-sequence :
        (s a : List Bytes)
        → sq < int64_min_abs
        → run vm (field_extract lib num 8) (oracle_message ts sq pr ∷ s, a)
          ≡ some (num (pos sq) ∷ s, a)
    run-sequence s a h =
        run-field_extract 8 sq (oracle_message ts sq pr) s a
          (omega (arith, length-oracle_message ts sq pr)) (field_sequence ts sq pr) h

    pub run-price :
        (s a : List Bytes)
        → pr < int64_min_abs
        → run vm (field_extract lib num 16) (oracle_message ts sq pr ∷ s, a)
          ≡ some (num (pos pr) ∷ s, a)
    run-price s a h =
        run-field_extract 16 pr (oracle_message ts sq pr) s a
          (omega (arith, length-oracle_message ts sq pr)) (field_price ts sq pr) h
