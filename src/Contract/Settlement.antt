-- ===== src/Contract/Settlement.antt =====
-- What the covenant accepts, against the service's own payout rule: `SettlementScript` of
-- contract/settlement.go and `SettlementSplit` of contract/arbitration.go.
use hedge_arkade.Common.{
  Option-cases, Bytes, bytes_equal_iff, ok, ℕ, ◌+◌, ◌<◌, ◌≡◌, sym, ap, ◌∙◌, ◌↔◌, ◌⊎◌, inl, inr,
  true, ◌||◌, Option, none, some, [], ◌∷◌, ◌++◌, arith, Result-cases, and_iff, itself,
}
use hedge_arkade.Common.Int.{
  ℤ, pos, ◌+ℤ◌, ◌-ℤ◌, ◌≤ℤ◌, ◌<ℤ◌, leb_ℤ, ◌==ℤ◌, ==ℤ_iff, int64_min_abs, ltb_ℤ_iff, leb_ℤ_iff,
}
use hedge_arkade.Contract.Library.{Library}
use hedge_arkade.Contract.Oracle.{oracle_message}
use hedge_arkade.Contract.Terms.{Terms, IsValid, FitsInt64, validate, clamp, settlement_split}
use hedge_arkade.Contract.Split.{
  short_owed, settlement_split-exact, settlement_split-eq-ok, validate-eq-none_iff,
}
use hedge_arkade.Contract.Vm.{Vm, Spend, pushed_commitment, accepted_by}
use hedge_arkade.Contract.Script.{
  recipient_check, lock_script_check, lock_script_commitment, settlement_script, shape_check,
  covenant_body,
}
use hedge_arkade.Contract.Opcodes.{Script, op_0, op_1}
use hedge_arkade.Contract.Covenant.{pays_to, accepted_by-eq}

-- An output goes to a lock script: the VM pushes for it what `lockScriptCommitment` computes.
abbrev pub Pays : Library → Bytes → Bytes → Type 0
Pays lib script lock_script =
    (c : Bytes × ℤ) × (lock_script_commitment lib lock_script ≡ ok c)
    × (pushed_commitment lib script ≡ some c)

-- A spend that settles the contract by the message (ts, sq, pr) and its predecessor (ts', sq', pr').
pub record Settles (lib : Library) (tx : Spend) (t : Terms) (ts sq pr ts' sq' pr' : ℕ)
    (sig sig' : Bytes) : Type 0 where
  pub one_input : tx.num_inputs ≡ 1
  pub holds_payout : tx.input_sats ≡ t.payout_sats
  pub short_paid : Pays lib tx.output_0.1 t.short_lock_script
  pub long_paid : Pays lib tx.output_1.1 t.long_lock_script
  pub previous_signed :
      lib.verify t.oracle_pub_key (lib.sha256 (oracle_message ts' sq' pr')) sig' ≡ true
  pub settlement_signed :
      lib.verify t.oracle_pub_key (lib.sha256 (oracle_message ts sq pr)) sig ≡ true
  pub previous_before_maturity : pos ts' <ℤ t.maturity_timestamp
  pub previous_numbered : 0 < sq'
  pub adjacent : sq ≡ sq' + 1
  pub started : t.start_timestamp ≤ℤ pos ts
  pub price_pos : 0 < pr
  pub triggered :
      (pos pr ≤ℤ t.low_price) ⊎ (t.high_price ≤ℤ pos pr) ⊎ (t.maturity_timestamp ≤ℤ pos ts)
  pub split_paid : settlement_split t (pos pr) ≡ ok (tx.output_0.0, tx.output_1.0)

pays_to_iff : (r : Option (Bytes × ℤ)) (c : Bytes × ℤ) → (pays_to r c ≡ true) ↔ (r ≡ some c)
pays_to_iff none c = (λ h. cc, λ h. cc)
pays_to_iff (some (d, v)) (d', v') = (
  λ h. ground (arith, bytes_equal_iff d d', ==ℤ_iff v v'),
  λ h. ground (arith, bytes_equal_iff d d', ==ℤ_iff v v'),
)

-- `settlement_script` returns only over valid terms whose lock scripts have commitments.
settlement_script-eq-ok :
    (lib : Library) (num : ℤ → Bytes) (t : Terms) {script : Script}
    → settlement_script lib num t ≡ ok script
    → IsValid t
      × (c : Bytes × ℤ) × (d : Bytes × ℤ) × (lock_script_commitment lib t.short_lock_script ≡ ok c)
      × (lock_script_commitment lib t.long_lock_script ≡ ok d)
      × (script
          ≡ shape_check lib num t
            ++ (recipient_check lib num op_0 c
                ++ (recipient_check lib num op_1 d ++ covenant_body lib num t)))
unfolding settlement_script lock_script_check
settlement_script-eq-ok lib num t {script} h = elim (Option-cases (validate t)) [
  | inr (e, ev) ↦ absurd (ground arith)
  | inl ev ↦ elim (Result-cases (lock_script_commitment lib t.short_lock_script)) [
    | inl (e, ec) ↦ absurd (ground arith)
    | inr (c, ec) ↦ elim (Result-cases (lock_script_commitment lib t.long_lock_script)) [
      | inl (e, ed) ↦ absurd (ground arith)
      | inr (d, ed) ↦ ((validate-eq-none_iff t).0 ev, c, d, ec, ed, ground arith)
    ]
  ]
]

trigger_iff :
    (t : Terms) (p ts : ℤ)
    → t.low_price <ℤ t.high_price
    → (((clamp t p ==ℤ t.low_price || clamp t p ==ℤ t.high_price) || leb_ℤ t.maturity_timestamp ts)
        ≡ true)
      ↔ ((p ≤ℤ t.low_price) ⊎ (t.high_price ≤ℤ p) ⊎ (t.maturity_timestamp ≤ℤ ts))
unfolding clamp
trigger_iff t p ts h = (λ e. ground arith, λ e. ground arith)

same_commitment :
    (lib : Library) (script lock_script : Bytes) {c : Bytes × ℤ}
    → Pays lib script lock_script
    → lock_script_commitment lib lock_script ≡ ok c
    → pushed_commitment lib script ≡ some c
same_commitment lib script lock_script (c, ec, ep) e = cc

paid→split :
    (t : Terms) (v : IsValid t) (f : FitsInt64 t) (p a b : ℤ)
    → pos 0 <ℤ p
    → t.payout_sats -ℤ short_owed t p ≡ b
    → short_owed t p ≡ a
    → settlement_split t p ≡ ok (a, b)
paid→split t v f p a b h eb ea = settlement_split-exact t v f p h ∙ cc

adjacent_iff : (a b : ℕ) → ((pos a +ℤ pos 1 ==ℤ pos b) ≡ true) ↔ (b ≡ a + 1)
unfolding ◌+ℤ◌
adjacent_iff a b = (λ h. ground arith, λ h. ground arith)

module _ {lib : Library} {num : ℤ → Bytes} {tx : Spend} (vm : Vm lib num tx) (t : Terms)
    (f : FitsInt64 t) (ts sq pr ts' sq' pr' : ℕ) (sig sig' : Bytes) (ts_small : ts < int64_min_abs)
    (sq_small : sq < int64_min_abs) (pr_small : pr < int64_min_abs)
    (ts'_small : ts' < int64_min_abs) (sq'_small : sq' < int64_min_abs) where
  -- In any VM that obeys the opcode laws, over terms that fit in `int64` and whose script is
  -- built, with two oracle messages as the witness whose fields fit in 63 bits (the predecessor's
  -- price may be any): the covenant accepts a spend exactly when it spends the contract alone and
  -- whole, pays both lock scripts, the messages are signed, adjacent, and on the right sides of
  -- maturity and start, the price is positive and out of bounds or the contract matured, and the
  -- two outputs are what `SettlementSplit` returns at that price.
  pub settlement_script-accepts_iff :
      {script : Script}
      → settlement_script lib num t ≡ ok script
      → (accepted_by vm script
            (oracle_message ts' sq' pr' ∷ sig' ∷ oracle_message ts sq pr ∷ sig ∷ [])
          ≡ true)
        ↔ Settles lib tx t ts sq pr ts' sq' pr' sig sig'
  settlement_script-accepts_iff {script} e =
      let (v, c, d, ec, ed, es) = settlement_script-eq-ok lib num t e in
      let p = pos pr in
      let run_eq =
        accepted_by-eq vm t v f ts sq pr ts' sq' pr' sig sig' ts_small sq_small pr_small ts'_small
          sq'_small c d in
      let tests = and_iff (==ℤ_iff (pos tx.num_inputs) (pos 1)) (
        and_iff (==ℤ_iff tx.input_sats t.payout_sats) (
          and_iff (pays_to_iff (pushed_commitment lib tx.output_0.1) c) (
            and_iff (pays_to_iff (pushed_commitment lib tx.output_1.1) d) (
              and_iff
                (itself
                  (lib.verify t.oracle_pub_key (lib.sha256 (oracle_message ts' sq' pr')) sig'))
                (and_iff
                  (itself (lib.verify t.oracle_pub_key (lib.sha256 (oracle_message ts sq pr)) sig))
                  (and_iff (ltb_ℤ_iff (pos ts') t.maturity_timestamp) (
                    and_iff (ltb_ℤ_iff (pos 0) (pos sq')) (
                      and_iff (adjacent_iff sq' sq) (
                        and_iff (leb_ℤ_iff t.start_timestamp (pos ts)) (
                          and_iff (ltb_ℤ_iff (pos 0) p) (
                            and_iff (trigger_iff t p (pos ts) v.low_lt_high) (
                              and_iff (==ℤ_iff (t.payout_sats -ℤ short_owed t p) tx.output_1.0)
                                (==ℤ_iff (short_owed t p) tx.output_0.0))))))))))))) in
      rw (es, run_eq)
        (
          λ h.
              let q = tests.0 h in
              let later = q.1.1.1.1.1.1 in
              let last = later.1.1.1.1 in
              record {
                one_input = ground (arith, q.0);
                holds_payout = q.1.0;
                short_paid = (c, ec, q.1.1.0);
                long_paid = (d, ed, q.1.1.1.0);
                previous_signed = q.1.1.1.1.0;
                settlement_signed = q.1.1.1.1.1.0;
                previous_before_maturity = later.0;
                previous_numbered = omega (arith, later.1.0);
                adjacent = later.1.1.0;
                started = later.1.1.1.0;
                price_pos = omega (arith, last.0);
                triggered = last.1.0;
                split_paid = paid→split t v f p _ _ last.0 last.1.1.0 last.1.1.1;
              },
          λ r.
              let (_, _, eshort, elong) = settlement_split-eq-ok t p f r.split_paid in
              tests.1 (
                ap pos r.one_input,
                (
                  r.holds_payout,
                  (
                    same_commitment lib _ _ r.short_paid ec,
                    (
                      same_commitment lib _ _ r.long_paid ed,
                      (
                        r.previous_signed,
                        (
                          r.settlement_signed,
                          (
                            r.previous_before_maturity,
                            (
                              omega (arith, r.previous_numbered),
                              (
                                r.adjacent,
                                (
                                  r.started,
                                  (
                                    omega (arith, r.price_pos),
                                    (r.triggered, (sym elong, sym eshort)),
                                  ),
                                ),
                              ),
                            ),
                          ),
                        ),
                      ),
                    ),
                  ),
                ),
              ),
        )
