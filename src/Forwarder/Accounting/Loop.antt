-- ===== src/Forwarder/Accounting/Loop.antt =====
-- The `for` loop of `Forwarder.run` counts every message.
use mail_transporter.Base.{
  ℕ, suc, ◌+◌, ◌-◌, ◌≤◌, Bool, true, false, ◌≡◌, refl, List, [], ◌∷◌, Text, Result, ok, raised,
  abort_run, ◌∙◌, Exec, length, arith,
}
use mail_transporter.Ports.{Ports}
use mail_transporter.Forwarder.State.{ForwarderOptions, Run}
use mail_transporter.Forwarder.Loop.{processed, each, out_of_time}
use mail_transporter.Forwarder.Accounting.{handled, Handles}
use mail_transporter.Forwarder.Accounting.Process.{process-Handles}

module _ {S : Type 0} (ports : Ports S) (options : ForwarderOptions) where
  -- The loop over `left` messages. If it returns, the counters have grown by `left`.
  abbrev pub Loops : ℕ → Run S → Result (Unit {0}) → Run S → Type 0
  Loops left r (ok _) r' =
      (handled r' + r'.result.remaining ≡ handled r + left) × (r'.result.listed ≡ r.result.listed)
  Loops left r (raised _) r' =
      (handled r' + r'.result.remaining ≤ handled r + left) × (r'.result.listed ≡ r.result.listed)

  abbrev pub Looped : ℕ → Run S → Result (Unit {0}) × Run S → Type 0
  Looped left r (outcome, r') = Loops left r outcome r'

  processed-Looped :
      (left : ℕ) (rest : Exec (Run S) Unit) (outcome : Result Unit) (r r' : Run S)
      → r.result.remaining ≡ 0
      → Handles r outcome r'
      → (r'.result.remaining ≡ 0 → Looped left r' (rest r'))
      → Looped (suc left) r (processed ports options (suc left) rest outcome r')
  unfolding processed
  processed-Looped left rest (ok _) r r' z h k = go (rest r').0 (rest r').1 (k (omega arith))
    where
      go :
          (outcome : Result Unit) (r'' : Run S)
          → Loops left r' outcome r''
          → Loops (suc left) r outcome r''
      go (ok _) r'' l = (omega arith, l.1 ∙ h.1.0)
      go (raised _) r'' l = (omega arith, l.1 ∙ h.1.0)
  processed-Looped left rest (raised (abort_run e)) r r' z h k = (omega arith, h.1.0)
  processed-Looped left rest (raised _) r r' z h k = (omega arith, h.1.0)

  each_round-Looped :
      (late : Bool) (started : ℕ) (extra : List Text) (total index uid : ℕ) (uids : List ℕ)
      (r : Run S)
      → out_of_time ports options started (ports.clock r.world).0 ≡ late
      → total - index ≡ suc (length uids)
      → r.result.remaining ≡ 0
      → ((x : Run S)
          → x.result.remaining ≡ 0
          → Looped (length uids) x (each ports options started extra total (suc index) uids x))
      → Looped (suc (length uids)) r (each ports options started extra total index (uid ∷ uids) r)
  unfolding each
  each_round-Looped true started extra total index uid uids r e t z k =
      rw (e, t) (omega arith, refl)
  each_round-Looped false started extra total index uid uids r e t z k =
      let ticked : Run S = record r { world = (ports.clock r.world).1 } in
      rw (e, t)
        (processed-Looped (length uids) (each ports options started extra total (suc index) uids) _
          ticked _ z (process-Handles ports options uid extra ticked) (k _))

  -- The loop that returns has counted every message, under one of the counters or `remaining`.
  pub each-Looped :
      (started : ℕ) (extra : List Text) (total index : ℕ) (uids : List ℕ) (r : Run S)
      → total ≡ index + length uids
      → r.result.remaining ≡ 0
      → Looped (length uids) r (each ports options started extra total index uids r)
  unfolding each
  each-Looped started extra total index [] r t z = (omega arith, refl)
  each-Looped started extra total index (uid ∷ uids) r t z =
      each_round-Looped _ started extra total index uid uids r refl (omega arith) z
        (λ x zx. each-Looped started extra total (suc index) uids x (omega arith) zx)
