-- ===== src/Feeds/Stats.antt =====
-- `self._stats`, a `defaultdict(int)`, of the feed clients.
use Prim.Native.String.{String}
use l2_orderbook_pipeline.Common.{ℕ, ◌+◌, List, Option, none, some}
use l2_orderbook_pipeline.Common.Dict
use l2_orderbook_pipeline.Common.Texts.{string_Eq}

abbrev pub Stats : Type 0
Stats = List (String × ℕ)

abbrev pub or_zero : Option ℕ → ℕ
or_zero none = 0
or_zero (some n) = n

unfoldable pub count_of : String → Stats → ℕ
count_of key stats = or_zero (Dict.get key stats)

-- `self._stats[key] += 1`
unfoldable pub bump : String → Stats → Stats
unfolding count_of
bump key stats = Dict.set key (count_of key stats + 1) stats
