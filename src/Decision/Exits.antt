-- ===== src/Decision/Exits.antt =====
-- agents/decision/candidate_generator.py: the settings, the readers of the inputs, and
-- `_compute_exits`.
use leverage_agnet.Common.{◌&&◌, ◌∷◌, Bool, or_else, List, if◌then◌else◌, ℕ, Option, some, none, []}
use leverage_agnet.Common.Number
use leverage_agnet.Common.Number.{Number}
use leverage_agnet.Trading.{Action}
use leverage_agnet.Decision.Final.{first_some}
use leverage_agnet.Decision.Inputs.{
  read_option, read, min_of, MarketSnapshot, TechnicalResult, StrategySignal,
}
use leverage_agnet.Decision.Regime.{primary_of}
use leverage_agnet.PositionManager.Types.{is_long}

pub record GeneratorSettings (A : Type 0) : Type 0 where
  pub atr : Option A
  pub default_stop_pct : Option A
  pub stop_atr_multiplier : Option A
  pub min_stop_pct : Option A
  pub spread_bps : Option A
  pub slippage_bps : Option A
  pub max_risk_score : Option A
  pub min_long_score : Option A
  pub min_short_score : Option A
  pub max_leverage : Option ℕ
  pub max_entry_margin_ratio : Option A
  pub default_margin_ratio : Option A
  pub default_account_balance : Option A

pub record GeneratorConfig (A : Type 0) : Type 0 where
  pub top : GeneratorSettings A
  pub section : Option (GeneratorSettings A)

-- `_cfg`: the value of the section `decision` goes before the configuration's own
abbrev pub generator_setting :
    {A V : Type 0} → (GeneratorSettings A → Option V) → Option (GeneratorConfig A) → V → V
generator_setting get none d = d
generator_setting get (some c) d = or_else (first_some (read_option get c.section) (get c.top)) d

-- the two prices at which a position is to be closed
pub record Exits (A : Type 0) : Type 0 where
  pub stop : A
  pub target : A

module _ {A : Type 0} (F : Number A) where
  -- `_first_decimal`
  abbrev pub first_positive : List (Option A) → Option A
  first_positive [] = none
  first_positive (none ∷ rest) = first_positive rest
  first_positive (some a ∷ rest) =
      let later = first_positive rest in if F.ltb (Number.nil F) a then some a else later

  -- `_get_price`
  unfoldable pub get_price :
      Option (MarketSnapshot A) → Option (TechnicalResult A) → Option (StrategySignal A) → Option A
  get_price m t s = first_positive (
      read_option (λ m. m.current_price) m
      ∷ read_option (λ m. m.price) m
      ∷ read_option (λ m. m.mark_price) m
      ∷ read_option (λ s. s.entry_price) s
      ∷ read_option (λ s. s.entry) s
      ∷ read_option (λ t. t.latest_close) t
      ∷ read_option (λ p. p.close) (primary_of F t)
      ∷ [])

  abbrev pub top_atr : Option (GeneratorConfig A) → Option A
  top_atr none = none
  top_atr (some c) = c.top.atr

  -- `_extract_atr`
  unfoldable pub extract_atr : Option (TechnicalResult A) → A → Option (GeneratorConfig A) → A
  extract_atr t entry config =
      or_else
        (first_positive (
          read (λ p. p.atr) (primary_of F t)
          ∷ read_option (λ t. t.technical_atr) t
          ∷ top_atr config
          ∷ []))
        (Number.max F
          (F.mul entry (generator_setting (λ s. s.default_stop_pct) config (F.decimal 1 2)))
          (F.decimal 1 2))

  abbrev later_max : Option A → A → A
  later_max none l = l
  later_max (some b) l = Number.max F l b

  -- `_nearest_below`, over the positive levels
  abbrev pub nearest_below : List A → A → Option A
  nearest_below [] price = none
  nearest_below (l ∷ ls) price =
      if F.ltb (Number.nil F) l && F.ltb l price
      then some (later_max (nearest_below ls price) l)
      else nearest_below ls price

  abbrev later_min : Option A → A → A
  later_min none l = l
  later_min (some b) l = min_of F l b

  -- `_nearest_above`
  abbrev pub nearest_above : List A → A → Option A
  nearest_above [] price = none
  nearest_above (l ∷ ls) price =
      if F.ltb (Number.nil F) l && F.ltb price l
      then some (later_min (nearest_above ls price) l)
      else nearest_above ls price

  abbrev pub supports : Option (TechnicalResult A) → List A
  supports none = []
  supports (some t) = t.support_levels

  abbrev pub resistances : Option (TechnicalResult A) → List A
  resistances none = []
  resistances (some t) = t.resistance_levels

  abbrev pub stop_distance : Option (TechnicalResult A) → A → Option (GeneratorConfig A) → A
  stop_distance t entry config =
      Number.max F
        (F.mul (extract_atr t entry config)
          (generator_setting (λ s. s.stop_atr_multiplier) config (F.decimal 15 1)))
        (F.mul entry (generator_setting (λ s. s.min_stop_pct) config (F.decimal 3 3)))

  -- `x if x is not None and test(x) else None`
  abbrev pub keep_if : (A → Bool) → Option A → Option A
  keep_if test none = none
  keep_if test (some a) = if test a then some a else none

  abbrev pub rounded : A → A → Option (Exits A)
  rounded stop target = some (record { stop = F.quantize 2 stop; target = F.quantize 2 target })

  -- the target of a long position, at least `least`
  abbrev pub long_target : Option A → Option A → A → A
  long_target (some tp) resistance least = if F.ltb tp least then least else tp
  long_target none resistance least = or_else (keep_if (λ r. F.leb least r) resistance) least

  -- the target of a short position, at most `most`
  abbrev pub short_target : Option A → Option A → A → A
  short_target (some tp) support most = if F.ltb most tp then most else tp
  short_target none support most = or_else (keep_if (λ s. F.leb s most) support) most

  unfoldable pub long_exits : A → A → Option A → Option A → A → Option (Exits A)
  long_exits entry stop tp resistance min_rr =
      if F.leb entry stop
      then none
      else rounded stop (long_target tp resistance (F.add entry (F.mul (F.sub entry stop) min_rr)))

  unfoldable pub short_exits : A → A → Option A → Option A → A → Option (Exits A)
  short_exits entry stop tp support min_rr =
      let target = short_target tp support (F.sub entry (F.mul (F.sub stop entry) min_rr)) in
      if F.leb stop entry
      then none
      else if F.leb target (Number.nil F)
      then none
      else rounded stop target

  abbrev pub raw_stop : Option (StrategySignal A) → Option A
  raw_stop s = first_positive (read_option (λ s. s.stop_loss) s ∷ read_option (λ s. s.sl) s ∷ [])

  abbrev pub raw_target : Option (StrategySignal A) → Option A
  raw_target s =
      first_positive (read_option (λ s. s.take_profit) s ∷ read_option (λ s. s.tp) s ∷ [])

  -- `_compute_exits`
  unfoldable pub compute_exits :
      Action
      → A
      → Option (TechnicalResult A)
      → Option (StrategySignal A)
      → A
      → Option (GeneratorConfig A)
      → Option (Exits A)
  compute_exits action entry t s min_required_rr config =
      let distance = stop_distance t entry config in
      let min_rr = Number.max F min_required_rr (F.decimal 20 1) in
      let below = nearest_below (supports t) entry in
      let above = nearest_above (resistances t) entry in
      if is_long action
      then long_exits entry
          (or_else (first_some (keep_if (λ x. F.ltb x entry) (raw_stop s)) below)
            (F.sub entry distance))
          (keep_if (λ x. F.ltb entry x) (raw_target s)) above min_rr
      else short_exits entry
          (or_else (first_some (keep_if (λ x. F.ltb entry x) (raw_stop s)) above)
            (F.add entry distance))
          (keep_if (λ x. F.ltb x entry) (raw_target s)) below min_rr
