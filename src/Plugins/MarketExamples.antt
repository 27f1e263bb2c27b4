-- ===== src/Plugins/MarketExamples.antt =====
-- The theorems on the plugin market (linux/src/plugins_manager.cpp) at concrete inputs.
use harness_desktop.Base.{true, Bytes, codes, All}
use harness_desktop.Settings.{leading_number}
use harness_desktop.Plugins.Market.{fetch_market}
use harness_desktop.Plugins.Listing.{IsNamed, IsNamed-fetch_market}

abbrev answer : Bytes
answer = codes "window.PLUGIN_DATA = {\"plugins\": [{\"name\": \"a\"}, {\"id\": \"b\"}]};"

IsNamed-fetch_market_example :
    All (IsNamed (λ n. n) true) (fetch_market (λ n. n) true (leading_number 0) answer)
IsNamed-fetch_market_example = IsNamed-fetch_market (λ n. n) true (leading_number 0) answer
