-- ===== src/Executor/Tools/DenyList.antt =====
-- packages/executor/src/tools/deny-list.ts. `lower` is `toLowerCase`.
use secure_openclaw_poc.Common.{
  Text, List, [], ◌∷◌, Bool, ◌==◌, ◌||◌, codes, text_eq, starts_with, includes, any, map, reverse,
  if◌then◌else◌,
}

-- A path with `/` for each backslash.
unfoldable pub normalized : Text → Text
normalized t = map (λ c. if c == 92 then 47 else c) t

-- What stands before the first `/`.
abbrev pub before_slash : Text → Text
before_slash [] = []
before_slash (c ∷ cs) = let rest = before_slash cs in if c == 47 then [] else c ∷ rest

abbrev pub skip_slashes : Text → Text
skip_slashes [] = []
skip_slashes (c ∷ cs) = let rest = skip_slashes cs in if c == 47 then rest else c ∷ cs

-- `basename` of node:path: the last part of a path, without the slashes after it.
unfoldable pub basename : Text → Text
basename t = reverse (before_slash (skip_slashes (reverse t)))

abbrev pub ends_with : (text suffix : Text) → Bool
ends_with t s = starts_with (reverse t) (reverse s)

abbrev pub extension_deny : List Text
extension_deny = codes ".pem" ∷ codes ".key" ∷ codes ".enc" ∷ codes ".db" ∷ codes ".sqlite" ∷ []

abbrev pub substring_deny : List Text
substring_deny = codes "secret" ∷ codes "credential" ∷ codes "vault" ∷ []

module _ (lower : Text → Text) where
  unfoldable pub is_denied_base : (base : Text) → Bool
  is_denied_base base =
      starts_with base (codes ".env")
      || (text_eq base (codes ".dev.vars") || any (λ ext. ends_with base ext) extension_deny)

  unfoldable pub is_denied_path : (file_path : Text) → Bool
  unfolding normalized basename is_denied_base
  is_denied_path file_path =
      let path = normalized file_path in
      is_denied_base (lower (basename path))
      || (includes path (codes ".git/config")
          || (includes path (codes ".git/credentials")
              || any (λ part. includes (lower path) part) substring_deny))
