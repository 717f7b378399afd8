-- ===== src/ScannerGuard/Paths.antt =====
-- `is_scanner_path` of src/scanner_guard.rs. A text is the list of its code points.
use hifi_api_rust.Base.Bytes.{codes, to_lower, same, starts_with}
use hifi_api_rust.Base.{
  ℕ, Bool, true, false, ◌&&◌, ◌||◌, List, [], ◌∷◌, map, ◌==◌, if◌then◌else◌, any, keep,
}

-- `path.split('/').filter(|segment| !segment.is_empty())`
abbrev pub is_some_text : List ℕ → Bool
is_some_text [] = false
is_some_text (c ∷ s) = true

unfoldable pub split : List ℕ → List (List ℕ)
split [] = [] ∷ []
split (c ∷ s) = elim (split s) [
  | [] ↦ []
  | seg ∷ segs ↦ if c == b'/' then [] ∷ seg ∷ segs else (c ∷ seg) ∷ segs
]

unfoldable pub segments : List ℕ → List (List ℕ)
segments s = keep is_some_text (split s)

unfoldable pub is_marker : List ℕ → Bool
is_marker s =
    same s (codes ".env")
    || starts_with (codes ".env.") s
    || same s (codes ".git")
    || starts_with (codes "wp-") s
    || same s (codes "wordpress")
    || same s (codes "xmlrpc.php")
    || same s (codes "phpinfo.php")

-- `segments.windows(2).any(|pair| pair == ["var", "www"])`
unfoldable pub has_var_www : List (List ℕ) → Bool
has_var_www [] = false
has_var_www (a ∷ []) = false
has_var_www (a ∷ b ∷ r) = (same a (codes "var") && same b (codes "www")) || has_var_www (b ∷ r)

unfoldable pub is_scanner_path : (List ℕ → List ℕ) → List ℕ → Bool
is_scanner_path decode path =
    let segs = segments (map to_lower (decode path)) in any is_marker segs || has_var_www segs
