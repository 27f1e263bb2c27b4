-- ===== src/Labels.antt =====
-- The texts that the shell shows: string literals in UTF-8, in Chinese or in English
-- (S of linux/src/plugins_manager.cpp and the conditional expressions on `zh`).
use Prim.Native.Char.{code}
use Prim.Native.String.{String}
use harness_desktop.Base.{Bool, [], ◌++◌, Bytes, if◌then◌else◌}
use harness_desktop.Json.Scan.{utf8}

-- the bytes of a literal
unfoldable pub utf8_text : String → Bytes
unfolding utf8
utf8_text String.[] = []
utf8_text (String.◌∷◌ c s) = utf8 (code c) ++ utf8_text s

unfoldable pub choose : Bool → String → String → Bytes
unfolding utf8_text
choose zh chinese english = if zh then utf8_text chinese else utf8_text english
