-- ===== src/Window/About.antt =====
-- The text of the about dialog (OnAboutActivate of linux/src/main_window.cpp).
use harness_desktop.Base.{Bool, ◌++◌, Bytes, codes, is_empty, if◌then◌else◌}
use harness_desktop.Labels.{choose}

-- a version, or that nothing is installed
unfoldable pub installed_version : Bool → Bytes → Bytes
unfolding choose
installed_version zh version = if is_empty version then choose zh "未安装" "not installed" else version

-- the comments, for what LocalVersion and NodeVersion return
unfoldable pub about_comments : Bool → Bytes → Bytes → Bytes
unfolding installed_version choose
about_comments zh engine node =
    choose zh "引擎（dsh web）: " "Engine (dsh web): "
    ++ (installed_version zh engine ++ (codes "\nNode.js: " ++ installed_version zh node))
