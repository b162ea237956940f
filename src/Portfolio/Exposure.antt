-- ===== src/Portfolio/Exposure.antt =====
-- agents/portfolio/calculator.py: the exposures by symbol and the shares of the coins.
use leverage_agnet.Portfolio.Types.{PortfolioPosition, SymbolExposure, risk_usdt, notional_value}
use text.Mathlib.Text.{◌==◌ as ◌=text=◌}
use leverage_agnet.Common.{Bool, if◌then◌else◌, String, List, false, true, [], map, ◌∷◌}
use leverage_agnet.Common.Number
use leverage_agnet.Common.Number.{Number}
use leverage_agnet.Common.Sums.{sum_from}

module _ {A : Type 0} (F : Number A) where
  -- Python's `sum` over the positions
  abbrev pub sum_of : (PortfolioPosition A → A) → List (PortfolioPosition A) → A
  sum_of f ps = sum_from F (Number.nil F) (map f ps)

  abbrev exposure_of : A → PortfolioPosition A → SymbolExposure A
  exposure_of total p = record {
    coin = p.coin;
    symbol = p.symbol;
    direction = p.direction;
    notional_value = notional_value F p;
    margin_used = p.margin_used;
    unrealized_pnl = p.unrealized_pnl;
    risk_usdt = risk_usdt F p;
    portfolio_weight =
        F.quantize 6
          (if F.ltb (Number.nil F) total then F.div (notional_value F p) total else Number.nil F);
  }

  -- `_build_symbol_exposures`
  unfoldable pub build_symbol_exposures : List (PortfolioPosition A) → List (SymbolExposure A)
  build_symbol_exposures ps = map (exposure_of (sum_of (notional_value F) ps)) ps

  -- `coin_notional[coin] = coin_notional.get(coin, 0) + value`, at the key's place or at the end
  abbrev pub add_notional : String → A → List (String × A) → List (String × A)
  add_notional coin value [] = (coin, F.add (Number.nil F) value) ∷ []
  add_notional coin value ((c, v) ∷ rest) =
      let later = add_notional coin value rest in
      if c =text= coin then (c, F.add v value) ∷ rest else (c, v) ∷ later

  abbrev pub coin_notional : List (String × A) → List (SymbolExposure A) → List (String × A)
  coin_notional acc [] = acc
  coin_notional acc (e ∷ es) = coin_notional (add_notional e.coin e.notional_value acc) es

  abbrev share_in : A → String × A → String × A
  share_in total (coin, notional) = (coin, F.quantize 6 (F.div notional total))

  -- `_calc_coin_concentrations`
  unfoldable pub calc_coin_concentrations : List (SymbolExposure A) → A → List (String × A)
  calc_coin_concentrations es total =
      if F.leb total (Number.nil F) then [] else map (share_in total) (coin_notional [] es)

  -- the first coin with the largest share, and this share
  abbrev pub largest : String × A → List (String × A) → String × A
  largest best [] = best
  largest best (next ∷ rest) = largest (if F.ltb best.1 next.1 then next else best) rest

  abbrev pub max_concentration : List (String × A) → String × A
  max_concentration [] = ("", Number.nil F)
  max_concentration (first ∷ rest) = largest first rest

  abbrev pub all_within : A → List (String × A) → Bool
  all_within limit [] = true
  all_within limit ((_, pct) ∷ rest) =
      let later = all_within limit rest in if F.ltb limit pct then false else later
