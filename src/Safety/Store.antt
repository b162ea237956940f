-- ===== src/Safety/Store.antt =====
-- backend/app/safety/state.py: `SafetyStateStore`, the interface between the safety components
-- and the place where their state is kept, and `InMemorySafetyStateStore`, which fills it.
use leverage_agnet.Common.{
  ℕ, ◌≡◌, refl, ap, fun_ext, arith, ◌==◌, if◌then◌else◌, [], Dict, lookup, insert, lookup-insert,
  or_else,
}
use leverage_agnet.Common.Number.{Number}
use leverage_agnet.Safety.Types.{
  UserId, KillSwitchState, DisconnectState, EmergencyState, DrawdownState, new_kill_switch,
  new_disconnect, new_emergency, new_drawdown,
}

-- The methods of the abstract class. A setter returns the new state of the store.
pub record StateStore (A S : Type 0) : Type 0 where
  pub get_daily_kill_switch : UserId → S → KillSwitchState A
  pub set_daily_kill_switch : UserId → KillSwitchState A → S → S
  pub get_weekly_kill_switch : UserId → S → KillSwitchState A
  pub set_weekly_kill_switch : UserId → KillSwitchState A → S → S
  pub get_disconnect_state : S → DisconnectState
  pub set_disconnect_state : DisconnectState → S → S
  pub get_emergency_state : S → EmergencyState
  pub set_emergency_state : EmergencyState → S → S
  pub get_drawdown_state : UserId → S → DrawdownState A
  pub set_drawdown_state : UserId → DrawdownState A → S → S

-- What a store is taken to hold: one value for each name.
pub record View (A : Type 0) : Type 0 where
  pub daily : UserId → KillSwitchState A
  pub weekly : UserId → KillSwitchState A
  pub disconnect : DisconnectState
  pub emergency : EmergencyState
  pub drawdown : UserId → DrawdownState A

abbrev pub update : {V : Type 0} → (UserId → V) → UserId → V → UserId → V
update f u v w = if w == u then v else f w

-- A getter reads its own part of the view, and a setter replaces that part and nothing else.
pub record IsLawful {A S : Type 0} (st : StateStore A S) (view : S → View A) : Type 0 where
  pub get_daily : (u : UserId) (s : S) → st.get_daily_kill_switch u s ≡ (view s).daily u
  pub get_weekly : (u : UserId) (s : S) → st.get_weekly_kill_switch u s ≡ (view s).weekly u
  pub get_disconnect : (s : S) → st.get_disconnect_state s ≡ (view s).disconnect
  pub get_emergency : (s : S) → st.get_emergency_state s ≡ (view s).emergency
  pub get_drawdown : (u : UserId) (s : S) → st.get_drawdown_state u s ≡ (view s).drawdown u
  pub set_daily :
      (u : UserId) (k : KillSwitchState A) (s : S)
      → view (st.set_daily_kill_switch u k s)
        ≡ record (view s) { daily = update (view s).daily u k }
  pub set_weekly :
      (u : UserId) (k : KillSwitchState A) (s : S)
      → view (st.set_weekly_kill_switch u k s)
        ≡ record (view s) { weekly = update (view s).weekly u k }
  pub set_disconnect :
      (d : DisconnectState) (s : S)
      → view (st.set_disconnect_state d s) ≡ record (view s) { disconnect = d }
  pub set_emergency :
      (e : EmergencyState) (s : S)
      → view (st.set_emergency_state e s) ≡ record (view s) { emergency = e }
  pub set_drawdown :
      (u : UserId) (d : DrawdownState A) (s : S)
      → view (st.set_drawdown_state u d s)
        ≡ record (view s) { drawdown = update (view s).drawdown u d }

-- The attributes of `InMemorySafetyStateStore`.
pub record InMemory (A : Type 0) : Type 0 where
  pub daily : Dict (KillSwitchState A)
  pub weekly : Dict (KillSwitchState A)
  pub disconnect : DisconnectState
  pub emergency : EmergencyState
  pub drawdown : Dict (DrawdownState A)

module _ {A : Type 0} (F : Number A) where
  unfoldable pub empty_store : InMemory A
  empty_store = record {
    daily = [];
    weekly = [];
    disconnect = new_disconnect;
    emergency = new_emergency;
    drawdown = [];
  }

  -- In Python the getters hand out the stored objects themselves, so that a change of such an object
  -- is one of the store even before a setter is called; here they hand out copies. The gate's
  -- components pass every state that they change to its setter.
  abbrev pub in_memory : StateStore A (InMemory A)
  in_memory = record {
    get_daily_kill_switch = λ u s. or_else (lookup u s.daily) (new_kill_switch F u);
    set_daily_kill_switch = λ u k s. record s { daily = insert u k s.daily };
    get_weekly_kill_switch = λ u s. or_else (lookup u s.weekly) (new_kill_switch F u);
    set_weekly_kill_switch = λ u k s. record s { weekly = insert u k s.weekly };
    get_disconnect_state = λ s. s.disconnect;
    set_disconnect_state = λ d s. record s { disconnect = d };
    get_emergency_state = λ s. s.emergency;
    set_emergency_state = λ e s. record s { emergency = e };
    get_drawdown_state = λ u s. or_else (lookup u s.drawdown) (new_drawdown F);
    set_drawdown_state = λ u d s. record s { drawdown = insert u d s.drawdown };
  }

  abbrev pub memory_view : InMemory A → View A
  memory_view s = record {
    daily = λ u. or_else (lookup u s.daily) (new_kill_switch F u);
    weekly = λ u. or_else (lookup u s.weekly) (new_kill_switch F u);
    disconnect = s.disconnect;
    emergency = s.emergency;
    drawdown = λ u. or_else (lookup u s.drawdown) (new_drawdown F);
  }

or_else-lookup-insert :
    {V : Type 0} (w u : ℕ) (v : V) (d : Dict V) (x : ℕ → V)
    → or_else (lookup w (insert u v d)) (x w) ≡ update (λ j. or_else (lookup j d) (x j)) u v w
or_else-lookup-insert w u v d x = rw lookup-insert (ground arith)

-- The store in memory obeys the laws of the interface.
pub in_memory-IsLawful : {A : Type 0} (F : Number A) → IsLawful (in_memory F) (memory_view F)
in_memory-IsLawful F = record {
  get_daily = λ u s. refl;
  get_weekly = λ u s. refl;
  get_disconnect = λ s. refl;
  get_emergency = λ s. refl;
  get_drawdown = λ u s. refl;
  set_daily = λ u k s.
      ap (λ (f : UserId → KillSwitchState _). record (memory_view F s) { daily = f })
        (fun_ext λ w. or_else-lookup-insert w u k s.daily (new_kill_switch F));
  set_weekly = λ u k s.
      ap (λ (f : UserId → KillSwitchState _). record (memory_view F s) { weekly = f })
        (fun_ext λ w. or_else-lookup-insert w u k s.weekly (new_kill_switch F));
  set_disconnect = λ d s. refl;
  set_emergency = λ e s. refl;
  set_drawdown = λ u d s.
      ap (λ (f : UserId → DrawdownState _). record (memory_view F s) { drawdown = f })
        (fun_ext λ w. or_else-lookup-insert w u d s.drawdown (λ _. new_drawdown F));
}
