-- ===== src/Config/Paths.antt =====
-- The paths of the files of src/config.rs on each platform.
use Prim.Native.Char.{code}
use Prim.Native.String
use text.Mathlib.TextLemmas.{append_cancel_left}
use ebbflow.Prelude.{
  ◌≡◌, ◌≢◌, refl, String, Bool, true, false, ◌&&◌, ◌==◌, Option, none, some, str_eq, eq_iff,
  if◌then◌else◌,
}

pub data Platform : Type 0 where
  linux macos windows : Platform

abbrev is_empty : String → Bool
is_empty String.[] = true
is_empty (String.◌∷◌ c s) = false

-- `trim_end_matches('/')`
unfoldable trim_end_matches : String → String
trim_end_matches String.[] = String.[]
trim_end_matches (String.◌∷◌ c s) =
    let rest = trim_end_matches s in
    if is_empty rest && code c == b'/' then String.[] else String.◌∷◌ c rest

-- `EBB_CFG_DIR` counts on Linux only.
unfoldable config_path_root : Platform → Option String → String
unfolding trim_end_matches
config_path_root linux (some dir) = trim_end_matches dir
config_path_root linux none = "/etc/ebbflow"
config_path_root macos dir = "/usr/local/etc/ebbflow"
config_path_root windows dir = "\\Program Files\\ebbflow"

unfoldable in_root : Platform → Option String → String → String
unfolding config_path_root
in_root windows dir name = String.◌++◌ (config_path_root windows dir) (String.◌++◌ "\\" name)
in_root platform dir name = String.◌++◌ (config_path_root platform dir) (String.◌++◌ "/" name)

unfoldable config_file_full : Platform → Option String → String
unfolding in_root
config_file_full platform dir = in_root platform dir "config.yaml"

unfoldable key_file_full : Platform → Option String → String
unfolding in_root
key_file_full platform dir = in_root platform dir "host.key"

unfoldable addr_file_full : Platform → Option String → String
unfolding in_root
addr_file_full platform dir = in_root platform dir ".daemonaddr"

in_root-injective :
    (platform : Platform) (dir : Option String) (a b : String)
    → in_root platform dir a ≡ in_root platform dir b
    → a ≡ b
unfolding in_root
in_root-injective linux dir a b h =
    append_cancel_left "/" a b (append_cancel_left (config_path_root linux dir) _ _ h)
in_root-injective macos dir a b h =
    append_cancel_left "/" a b (append_cancel_left (config_path_root macos dir) _ _ h)
in_root-injective windows dir a b h =
    append_cancel_left "\\" a b (append_cancel_left (config_path_root windows dir) _ _ h)

-- A write of one of the files is not one of another: their paths differ, whatever the directory.
files_differ :
    (platform : Platform) (dir : Option String)
    → (config_file_full platform dir ≢ key_file_full platform dir)
      × (config_file_full platform dir ≢ addr_file_full platform dir)
      × (key_file_full platform dir ≢ addr_file_full platform dir)
unfolding config_file_full key_file_full addr_file_full
files_differ platform dir = (
  (λ h. names_differ "config.yaml" "host.key" refl (in_root-injective platform dir _ _ h)),
  (λ h. names_differ "config.yaml" ".daemonaddr" refl (in_root-injective platform dir _ _ h)),
  (λ h. names_differ "host.key" ".daemonaddr" refl (in_root-injective platform dir _ _ h)),
)
  where
    names_differ : (a b : String) → str_eq a b ≡ false → a ≢ b
    names_differ a b e h = cc (e, (eq_iff a b).1 h)
