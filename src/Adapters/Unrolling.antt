-- ===== src/Adapters/Unrolling.antt =====
-- Putting a contract's chain of transactions on the chain (arkade/unroll.go, `Unroll`).
use std.Path.{subst}
use hedge_arkade.Adapters.Net.{
  ◌>>=◌, chain_call, next_tx, already_redeemed, pending, failed_branch, Network, Log, NextTx,
  mined_tx, mined, slept, then_run, pure,
}
use hedge_arkade.Common.{
  Bool-cases, Bytes, ℕ, zero, suc, ◌+◌, ◌<◌, ◌≡◌, refl, sym, ap, ◌∙◌, ◌↔◌, ◌⊎◌, inl, inr, true,
  false, Option, none, some, [], ◌∷◌, ◌++◌, arith,
}
use hedge_arkade.Adapters.Chain.{unroll_rounds, put_in_block, mine_blocks, unroll}
use hedge_arkade.Contract.Tx.{OutPoint}

module _ (net : Network) where
  -- The branch coming down, from one log to another: the steps that it takes, and the transactions
  -- among them that were published. Nothing interrupts it and every block is produced.
  pub data Unrolls : ℕ → ℕ → Log → Log → Type 0 where
    down :
        {log : Log}
        → net.cancelled log ≡ false
        → net.next_redeem log ≡ already_redeemed
        → Unrolls 0 0 log log
    publish :
        {steps published : ℕ} {log log' : Log} (raw : Bytes)
        → net.cancelled log ≡ false
        → net.next_redeem log ≡ next_tx raw
        → net.can_mine_tx ≡ true
        → net.mine_tx log raw ≡ true
        → Unrolls steps published (log ++ mined_tx raw ∷ []) log'
        → Unrolls (suc steps) (suc published) log log'
    wait :
        {steps published : ℕ} {log log' : Log}
        → net.cancelled log ≡ false
        → net.next_redeem log ≡ pending
        → net.mine log 1 ≡ true
        → Unrolls steps published ((log ++ mined 1 ∷ []) ++ slept ∷ []) log'
        → Unrolls (suc steps) published log log'

  NextTx-cases :
      (n : NextTx)
      → ((raw : Bytes) × (n ≡ next_tx raw))
        ⊎ ((n ≡ already_redeemed) ⊎ ((n ≡ pending) ⊎ (n ≡ failed_branch)))
  NextTx-cases (next_tx raw) = inl (raw, refl)
  NextTx-cases already_redeemed = inr (inl refl)
  NextTx-cases pending = inr (inr (inl refl))
  NextTx-cases failed_branch = inr (inr (inr refl))

  module _ (rounds p : ℕ) (log : Log) (go : net.cancelled log ≡ false) where
    round_down :
        net.next_redeem log ≡ already_redeemed
        → unroll_rounds net (suc rounds) p log ≡ (some p, log)
    unfolding unroll_rounds
    round_down e = ground (arith, go, e)

    round_published :
        {raw : Bytes}
        → net.next_redeem log ≡ next_tx raw
        → net.can_mine_tx ≡ true
        → net.mine_tx log raw ≡ true
        → unroll_rounds net (suc rounds) p log
          ≡ unroll_rounds net rounds (suc p) (log ++ mined_tx raw ∷ [])
    unfolding unroll_rounds put_in_block ◌>>=◌ then_run chain_call
    round_published e can m = ground (arith, go, e, can, m)

    round_waited :
        net.next_redeem log ≡ pending
        → net.mine log 1 ≡ true
        → unroll_rounds net (suc rounds) p log
          ≡ unroll_rounds net rounds p ((log ++ mined 1 ∷ []) ++ slept ∷ [])
    unfolding unroll_rounds mine_blocks ◌>>=◌ then_run chain_call
    round_waited e m = ground (arith, go, e, m)

  counted : {n m : ℕ} {log : Log} → n ≡ m → Path (Option ℕ × Log) (some n, log) (some m, log)
  counted e = cc

  -- with enough rounds, the loop runs the steps
  unroll_rounds_complete :
      {steps n : ℕ} {log log' : Log} (rounds p : ℕ)
      → Unrolls steps n log log'
      → steps < rounds
      → unroll_rounds net rounds p log ≡ (some (p + n), log')
  unroll_rounds_complete zero p u less = absurd (omega arith)
  unroll_rounds_complete (suc rounds) p (down go e) less =
      round_down rounds p _ go e ∙ counted (omega arith)
  unroll_rounds_complete (suc rounds) p (publish raw go e can m u) less =
      round_published rounds p _ go e can m
      ∙ (unroll_rounds_complete rounds (suc p) u (omega arith) ∙ counted (omega arith))
  unroll_rounds_complete (suc rounds) p (wait go e m u) less =
      round_waited rounds p _ go e m ∙ unroll_rounds_complete rounds p u (omega arith)

  module _ (rounds p : ℕ) (log : Log) where
    round_cancelled : net.cancelled log ≡ true → (unroll_rounds net (suc rounds) p log).0 ≡ none
    unfolding unroll_rounds
    round_cancelled e = ground (arith, e)

    round_broken :
        net.next_redeem log ≡ failed_branch → (unroll_rounds net (suc rounds) p log).0 ≡ none
    unfolding unroll_rounds
    round_broken e = ground (arith, e)

    round_unpublished :
        {raw : Bytes}
        → net.next_redeem log ≡ next_tx raw
        → (net.can_mine_tx ≡ false) ⊎ (net.mine_tx log raw ≡ false)
        → (unroll_rounds net (suc rounds) p log).0 ≡ none
    unfolding unroll_rounds put_in_block ◌>>=◌ then_run chain_call pure
    round_unpublished e no' = ground (arith, e)

    round_unmined :
        net.next_redeem log ≡ pending
        → net.mine log 1 ≡ false
        → (unroll_rounds net (suc rounds) p log).0 ≡ none
    unfolding unroll_rounds mine_blocks ◌>>=◌ then_run chain_call
    round_unmined e no' = ground (arith, e, no')

  -- What a success of the loop has run.
  abbrev Ran : ℕ → ℕ → Log → ℕ → Log → Type 0
  Ran rounds p log r log' =
      (steps : ℕ) × (n : ℕ) × (steps < rounds) × Unrolls steps n log log' × (r ≡ p + n)

  counts_nothing :
      {p r : ℕ} {log log' : Log} → Path (Option ℕ × Log) (some p, log) (some r, log') → r ≡ p + 0
  counts_nothing h = ground (arith, h)

  counts : {n k : ℕ} → n ≡ 0 + k → k ≡ n
  counts e = omega arith

  ended :
      (rounds p : ℕ) (log : Log) {r : ℕ} {log' : Log}
      → net.cancelled log ≡ false
      → net.next_redeem log ≡ already_redeemed
      → Path (Option ℕ × Log) (some p, log) (some r, log')
      → Ran (suc rounds) p log r log'
  ended rounds p log go e h =
      (0, 0, omega arith, subst (Unrolls 0 0 log) (ap (λ x. x.1) h) (down go e), counts_nothing h)

  unroll_rounds_sound :
      (rounds p : ℕ) (log : Log) {r : ℕ} {log' : Log}
      → unroll_rounds net rounds p log ≡ (some r, log')
      → Ran rounds p log r log'
  unfolding unroll_rounds
  unroll_rounds_sound zero p log h = absurd (cc)
  unroll_rounds_sound (suc rounds) p log h = elim (Bool-cases (net.cancelled log)) [
    | inl stop ↦ absurd (cc (h, round_cancelled rounds p log stop))
    | inr go ↦ elim (NextTx-cases (net.next_redeem log)) [
      | inl (raw, e) ↦ elim (Bool-cases net.can_mine_tx) [
        | inr cannot ↦ absurd (cc (h, round_unpublished rounds p log e (inl cannot)))
        | inl can ↦ elim (Bool-cases (net.mine_tx log raw)) [
          | inr refused ↦ absurd (cc (h, round_unpublished rounds p log e (inr refused)))
          | inl taken ↦
              let (steps, n, less, u, er) =
                unroll_rounds_sound rounds (suc p) (log ++ mined_tx raw ∷ [])
                  (sym (round_published rounds p log go e can taken) ∙ h) in
              (suc steps, suc n, omega arith, publish raw go e can taken u, omega arith)
        ]
      ]
      | inr (inl e) ↦ ended rounds p log go e (sym (round_down rounds p log go e) ∙ h)
      | inr (inr (inl e)) ↦ elim (Bool-cases (net.mine log 1)) [
        | inr refused ↦ absurd (cc (h, round_unmined rounds p log e refused))
        | inl taken ↦
            let (steps, n, less, u, er) =
              unroll_rounds_sound rounds p ((log ++ mined 1 ∷ []) ++ slept ∷ [])
                (sym (round_waited rounds p log go e taken) ∙ h) in
            (suc steps, n, omega arith, wait go e taken u, er)
      ]
      | inr (inr (inr e)) ↦ absurd (cc (h, round_broken rounds p log e))
    ]
  ]

  unroll_started :
      (outpoint : OutPoint) (log : Log)
      → net.new_branch log outpoint ≡ true
      → net.mine log 1 ≡ true
      → unroll net outpoint log ≡ unroll_rounds net 40 0 (log ++ mined 1 ∷ [])
  unfolding unroll mine_blocks ◌>>=◌ then_run chain_call
  unroll_started outpoint log found first = ground (arith, found, first)

  unroll_unread :
      (outpoint : OutPoint) (log : Log)
      → net.new_branch log outpoint ≡ false
      → (unroll net outpoint log).0 ≡ none
  unfolding unroll
  unroll_unread outpoint log lost = ground (arith, lost)

  unroll_unmined :
      (outpoint : OutPoint) (log : Log)
      → net.mine log 1 ≡ false
      → (unroll net outpoint log).0 ≡ none
  unfolding unroll mine_blocks ◌>>=◌ then_run chain_call
  unroll_unmined outpoint log refused = ground (arith, refused)

  -- Where the branch's transactions are read and a first block is produced, `Unroll` succeeds exactly
  -- when the branch comes down in fewer than forty steps, which it has then taken one by one: each one
  -- the branch's next transaction put in a block, or a wait of one block where one is pending. It
  -- returns how many of the steps were transactions. In any other case it fails.
  pub unroll_iff :
      (outpoint : OutPoint) (log log' : Log) (n : ℕ)
      → (unroll net outpoint log ≡ (some n, log')) ↔ (
          (net.new_branch log outpoint ≡ true)
          × (net.mine log 1 ≡ true)
          × ((steps : ℕ) × (steps < 40) × Unrolls steps n (log ++ mined 1 ∷ []) log'))
  unroll_iff outpoint log log' n = (
    λ h. elim (Bool-cases (net.new_branch log outpoint)) [
      | inr lost ↦ absurd (cc (h, unroll_unread outpoint log lost))
      | inl found ↦ elim (Bool-cases (net.mine log 1)) [
        | inr refused ↦ absurd (cc (h, unroll_unmined outpoint log refused))
        | inl first ↦
            let (steps, k, less, u, e) =
              unroll_rounds_sound 40 0 (log ++ mined 1 ∷ [])
                (sym (unroll_started outpoint log found first) ∙ h) in
            (
              found,
              first,
              (steps, less, subst (λ k. Unrolls steps k (log ++ mined 1 ∷ []) log') (counts e) u),
            )
      ]
    ],
    λ (found, first, (steps, less, u)).
        unroll_started outpoint log found first
        ∙ (unroll_rounds_complete 40 0 u less ∙ counted (omega arith)),
  )
