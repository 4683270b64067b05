-- ===== src/Common/WaitSignal.antt =====
-- common/utils/wait_signal.cpp. The sets of signals, the mask and the waiting are the system's.
use gateway_poc.Base.{ℕ, ◌≡◌, ◌⊎◌, inl, inr}

pub data Signal : Type 0 where
  sigint sigterm sigquit : Signal
  other_signal : ℕ → Signal

pub record System : Type 1 where
  pub World : Type 0
  pub SignalSet : Type 0
  pub sigemptyset : SignalSet
  pub sigaddset : Signal → SignalSet → SignalSet
  pub sigprocmask_block : SignalSet → World → World  -- for the calling thread
  pub sigwait : SignalSet → World → Signal × World

module _ (system : System) where
  open system use {World, SignalSet, sigemptyset, sigaddset, sigprocmask_block, sigwait}

  unfoldable pub signal_set : SignalSet
  signal_set = sigaddset sigquit (sigaddset sigterm (sigaddset sigint sigemptyset))

  -- The signal that came is logged.
  unfoldable pub wait_signal : World → Signal × World
  unfolding signal_set
  wait_signal w = sigwait signal_set (sigprocmask_block signal_set w)

  -- What the manual says of sets and of waiting, for the membership `In`.
  pub record IsSystem (In : Signal → SignalSet → Type 0) : Type 0 where
    pub nothing_in : (n : Signal) → ¬ In n sigemptyset
    pub added_in : (n m : Signal) (set : SignalSet) → In n (sigaddset m set) → (n ≡ m) ⊎ In n set
    pub waited_in : (set : SignalSet) (w : World) → In (sigwait set w).0 set

  -- The programs stop for an interrupt, a termination or a quit, and for no other signal.
  pub wait_signal-handled :
      (In : Signal → SignalSet → Type 0)
      → IsSystem In
      → (w : World)
      → ((wait_signal w).0 ≡ sigquit) ⊎ ((wait_signal w).0 ≡ sigterm) ⊎ ((wait_signal w).0 ≡ sigint)
  unfolding wait_signal
  wait_signal-handled In law w =
      let n = (wait_signal w).0 in
      elim (law.added_in n sigquit _ (law.waited_in signal_set (sigprocmask_block signal_set w))) [
        | inl quit ↦ inl quit
        | inr rest ↦ elim (law.added_in n sigterm _ rest) [
          | inl term ↦ inr (inl term)
          | inr last ↦ elim (law.added_in n sigint _ last) [
            | inl int ↦ inr (inr int)
            | inr none_of_them ↦ absurd (law.nothing_in n none_of_them)
          ]
        ]
      ]
