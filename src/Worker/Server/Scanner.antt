-- ===== src/Worker/Server/Scanner.antt =====
-- `UsageLineScanner`: the token usage in the lines of a streamed answer.
pub mod Lines
use hive_core_v.Base.{
  ℕ, zero, suc, ◌==◌, Bool, true, false, Option, none, some, List, [], ◌++◌, any, length, is_empty,
  if◌then◌else◌,
}
use hive_core_v.Shared.Http.Json.{Json}
use hive_core_v.Shared.Http.TokenUsage.{TokenUsage, parse_usage_json}
use hive_core_v.Shared.Wire.Utf8.{from_utf8_lossy}
use hive_core_v.Shared.Wire.Stream.{until_newline}

pub record UsageLineScanner : Type 0 where
  pub pending : List ℕ
  pub observed : Option TokenUsage

abbrev pub default : UsageLineScanner
default = record { pending = []; observed = none }

abbrev pub has_newline : List ℕ → Bool
has_newline = any λ b. b == 10

abbrev pub newer : Option TokenUsage → Option TokenUsage → Option TokenUsage
newer old none = old
newer old (some usage) = some usage

module _ (json : Json) where
  unfoldable pub observe : List ℕ → UsageLineScanner → UsageLineScanner
  unfolding from_utf8_lossy parse_usage_json
  observe bytes s = record s {
    observed = newer s.observed (parse_usage_json json (from_utf8_lossy bytes));
  }

  -- The rounds of the loop, as many as the fuel: one for each newline.
  unfoldable pub drain_lines : ℕ → UsageLineScanner → UsageLineScanner
  unfolding observe until_newline
  drain_lines zero s = s
  drain_lines (suc fuel) s = elim (has_newline s.pending) [
    | true ↦
        let (line, rest) = until_newline s.pending in
        drain_lines fuel (observe line (record s { pending = rest }))
    | false ↦ s
  ]

  unfoldable pub push : List ℕ → UsageLineScanner → UsageLineScanner
  unfolding observe drain_lines
  push bytes s0 =
      let s1 = observe bytes s0 in
      let s2 = record s1 { pending = s1.pending ++ bytes } in
      drain_lines (suc (length s2.pending)) s2

  unfoldable pub finish : UsageLineScanner → Option TokenUsage
  unfolding observe
  finish s =
      if is_empty s.pending
      then s.observed
      else (observe s.pending (record s { pending = [] })).observed
