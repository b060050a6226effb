-- ===== src/Collector/Tick.antt =====
-- collector/tick.ts: what `runTick` merges from the probes of a tick, and `failedTick`. Times are
-- the texts of `toISOString`; the JSON of the errors is left as the list it prints.
pub mod Merge
mod Tests
use decant_fi.Common.{
  is_some, ℕ, zero, suc, ◌+◌, Bool, true, false, ◌&&◌, ◌||◌, List, [], ◌∷◌, ◌++◌, Option, none,
  some, String, str_eq, codes, any, filter, map, get_key, set_key, append_text, leb, ◌==◌,
  if◌then◌else◌, length,
}
use decant_fi.Common.Int.{ℤ, pos, ltb_ℤ}
use decant_fi.Common.Texts.{starts_folded}
use decant_fi.Core.Prices.{Prices}
use decant_fi.Core.RpcSelect.{RpcProbe, RpcSelection, Probed, answers, fails}
use decant_fi.Collector.Rows.{Probe, QuoteInsert, rows_for_probe}
use decant_fi.Common.Float.{Floats}
use decant_fi.Core.Rank.{RankedQuote}
use decant_fi.Core.Eurc.{EurcComparison}
use decant_fi.Core.Engine.{QuoteAll}

-- What `.` does not match as one unit.
abbrev pub is_line_end : ℕ → Bool
is_line_end c = c == 10 || c == 13 || c == 0x2028 || c == 0x2029 || leb 0x10000 c

-- What `.?` can be followed by: the text itself, or the text behind any character but a line end.
abbrev pub after_optional : List ℕ → List ℕ → Bool
after_optional pattern [] = starts_folded pattern []
after_optional pattern (c ∷ text) =
    starts_folded pattern (c ∷ text)
    || (if is_line_end c then false else starts_folded pattern text)

abbrev pub drop_rate : List ℕ → Option (List ℕ)
drop_rate (r ∷ a ∷ t ∷ e ∷ text) =
    if starts_folded (codes "rate") (r ∷ a ∷ t ∷ e ∷ []) then some text else none
drop_rate _ = none

abbrev pub rate_limit_here : Option (List ℕ) → Bool
rate_limit_here none = false
rate_limit_here (some text) = after_optional (codes "limit") text

pub sim_error_words : List String
sim_error_words = "429" ∷ "too many" ∷ "timeout" ∷ "etimedout" ∷ "econnreset" ∷ []

pub sim_error_here : List ℕ → Bool
sim_error_here text =
    any (λ word. starts_folded (codes word) text) sim_error_words
    || rate_limit_here (drop_rate text)

-- `/429|rate.?limit|too many|timeout|ETIMEDOUT|ECONNRESET/i.test(text)`
pub sim_error_in : List ℕ → Bool
sim_error_in [] = false
sim_error_in (c ∷ text) = sim_error_here (c ∷ text) || sim_error_in text

pub record ProbeResult (Num : Type 0) : Type 0 where
  pub rows : List (QuoteInsert Num)
  pub errors : List (String × String)
  pub resim_errors : ℕ

-- `result.errorReasons?.[e] ?? 'indisponible'`
abbrev pub reason_or_default : List (String × String) → String → String
reason_or_default reasons id = elim (get_key reasons id) [ some r ↦ r | none ↦ "indisponible" ]

pub local_errors : List (String × String) → List String → List (String × String)
local_errors reasons [] = []
local_errors reasons (id ∷ ids) = (id, reason_or_default reasons id) ∷ local_errors reasons ids

-- What the re-simulation threw, if it did.
abbrev pub resim_errors_of : Option String → ℕ
resim_errors_of none = 0
resim_errors_of (some message) = if sim_error_in (codes message) then 1 else 0

module _ (F : Floats) (prices : Prices F.Num) where
  -- What a probe leaves: the ranking and the comparison are those that the re-simulation left.
  pub run_probe :
      Probe
      → QuoteAll F.Num
      → List (RankedQuote F.Num)
      → Option (EurcComparison F.Num)
      → Option String
      → ProbeResult F.Num
  run_probe probe main ranked comparison thrown = record {
    rows = rows_for_probe F prices probe ranked comparison;
    errors = local_errors main.error_reasons main.errors;
    resim_errors = resim_errors_of thrown;
  }

pub keep_first : List (String × String) → List (String × String) → List (String × String)
keep_first [] reasons = reasons
keep_first (e ∷ es) reasons =
    keep_first es (if is_some (get_key reasons e.0) then reasons else set_key reasons e.0 e.1)

module _ {Num : Type 0} where
  pub all_rows : List (ProbeResult Num) → List (QuoteInsert Num)
  all_rows [] = []
  all_rows (p ∷ ps) = p.rows ++ all_rows ps

  pub all_reasons : List (ProbeResult Num) → List (String × String) → List (String × String)
  all_reasons [] reasons = reasons
  all_reasons (p ∷ ps) reasons = all_reasons ps (keep_first p.errors reasons)

  pub total_resim_errors : List (ProbeResult Num) → ℕ
  total_resim_errors [] = 0
  total_resim_errors (p ∷ ps) = p.resim_errors + total_resim_errors ps

  pub is_ok : List (QuoteInsert Num) → Bool
  is_ok rows = any (λ (q : QuoteInsert Num). ltb_ℤ (pos 0) q.net_out) rows

abbrev pub no_prices : {Num : Type 0} → Prices Num
no_prices = record { blnd_usd = none; xlm_usd = none; eurc_usd = none; eurc_stellar_mid = none }

pub record TickInsert (Num : Type 0) : Type 0 where
  pub started_at : String
  pub finished_at : String
  pub cadence_sec : ℕ
  pub prices : Prices Num
  pub ok : Bool
  -- null if there is none
  pub source_errors : List (String × String)
  pub note : Option String

pub record RpcProbeInsert : Type 0 where
  pub url : String
  pub probed : Probed
  pub chosen : Bool
  pub sim_errors : ℕ
  pub rpc_calls : ℕ

pub record TickAssembled (Num : Type 0) : Type 0 where
  pub tick : TickInsert Num
  pub quotes : List (QuoteInsert Num)
  pub rpc_probes : List RpcProbeInsert

pub sim_error_count : List (String × String) → ℕ
sim_error_count [] = 0
sim_error_count (r ∷ rs) = (if sim_error_in (codes r.1) then 1 else 0) + sim_error_count rs

abbrev pub rpc_row : String → ℕ → ℕ → RpcProbe → RpcProbeInsert
rpc_row rpc_url errors calls p = record {
  url = p.url;
  probed = p.probed;
  chosen = str_eq p.url rpc_url;
  sim_errors = if str_eq p.url rpc_url then errors else 0;
  rpc_calls = if str_eq p.url rpc_url then calls else 0;
}

-- None where the selection threw: the configured URL, without probes.
abbrev pub selected : String → Option RpcSelection → RpcSelection
selected default none = record { chosen = default; probes = [] }
selected default (some s) = s

abbrev pub rpc_url_of : String → RpcSelection → String
rpc_url_of default s = if str_eq s.chosen "" then default else s.chosen

module _ {Num : Type 0} (started finished : String) (cadence : ℕ) where
  -- The rest of `runTick`, from the results of the probes on.
  pub assemble :
      String → Option RpcSelection → ℕ → Prices Num → List (ProbeResult Num) → TickAssembled Num
  assemble default selection calls prices results =
      let sel = selected default selection in
      let rows = all_rows results in
      let reasons = all_reasons results [] in
      record {
        tick = record {
          started_at = started;
          finished_at = finished;
          cadence_sec = cadence;
          prices = prices;
          ok = is_ok rows;
          source_errors = reasons;
          note = none;
        };
        quotes = rows;
        rpc_probes =
            map
              (rpc_row (rpc_url_of default sel)
                (sim_error_count reasons + total_resim_errors results) calls)
              sel.probes;
      }

  pub failed_tick : String → TickInsert Num
  failed_tick message = record {
    started_at = started;
    finished_at = finished;
    cadence_sec = cadence;
    prices = no_prices;
    ok = false;
    source_errors = [];
    note = some (append_text "exception: " message);
  }
