-- ===== src/Contract/Tx.antt =====
-- Bitcoin transactions as the program builds them (btcd's package wire), and the locktime of the
-- exit leaf (ark-lib's `RelativeLocktime`).
use hedge_arkade.Common.{
  ◌==◌, Bytes, bytes_equal, bytes_equal_iff, ℕ, ◌≡◌, ◌↔◌, Bool, true, ◌&&◌, List, arith,
}
use hedge_arkade.Common.Int.{ℤ}

pub record OutPoint : Type 0 where
  pub hash : Bytes
  pub index : ℕ

pub record TxIn : Type 0 where
  pub previous_out_point : OutPoint
  pub sequence : ℕ
  pub witness : List Bytes

pub record TxOut : Type 0 where
  pub value : ℤ
  pub pk_script : Bytes

pub record MsgTx : Type 0 where
  pub version : ℕ
  pub tx_in : List TxIn
  pub tx_out : List TxOut

-- `==` on outpoints
unfoldable pub out_point_eq : OutPoint → OutPoint → Bool
out_point_eq a b = bytes_equal a.hash b.hash && a.index == b.index

pub out_point_eq_iff : (a b : OutPoint) → (out_point_eq a b ≡ true) ↔ (a ≡ b)
unfolding out_point_eq
out_point_eq_iff a b = (
  λ h. ground (arith, bytes_equal_iff a.hash b.hash),
  λ h. ground (arith, bytes_equal_iff a.hash b.hash),
)

pub data LocktimeType : Type 0 where
  second block : LocktimeType

pub record RelativeLocktime : Type 0 where
  pub locktime_type : LocktimeType
  pub value : ℕ
