-- ===== src/Scope/Paths.antt =====
-- The path tests of scripts/change_scope.py, with what they use of pathlib.PurePosixPath.
-- `str.lower` depends on the Unicode tables: it is the parameter `lower`.
use inverter_gateway.Prelude.{
  Bool, true, false, not, Option, none, some, List, [], ◌∷◌, ◌++◌, ◌&&◌, ◌||◌, if◌then◌else◌, Text,
  codes, ◌=t◌, ◌==◌, any, all, keep, is_empty, map,
}
use inverter_gateway.Plan.Patterns.{split_on}
use inverter_gateway.Plan.Declaration.{one_of}

-- `PurePosixPath(path).parts` of a relative path: empty and "." parts are dropped.
unfoldable pub parts_of : Text → List Text
parts_of path = keep (λ part. not (is_empty part) && not (part =t codes ".")) (split_on b'/' path)

unfoldable pub is_absolute : Text → Bool
is_absolute [] = false
is_absolute (c ∷ s) = c == b'/'

unfoldable pub join : List Text → Text
join [] = []
join (part ∷ []) = part
join (part ∷ next ∷ parts) = part ++ b'/' ∷ join (next ∷ parts)

-- `literal_path`, of a text
unfoldable pub literal_path : Text → Bool
literal_path path =
    not (is_empty path)
    && all (λ c. not (c == 92) && not (c == 0)) path
    && not (is_absolute path)
    && join (parts_of path) =t path
    && not (one_of (parts_of path) (codes ".."))
    && all (λ c. not (c == b'*') && not (c == b'?') && not (c == b'[')) path

-- The name in front of its last dot, and the dot with what follows; a name that begins or ends
-- with its last dot has no suffix.
unfoldable pub last_dot : Text → Option (Text × Text)
last_dot [] = none
last_dot (c ∷ s) = elim (last_dot s) [
  | some (stem, suffix) ↦ some (c ∷ stem, suffix)
  | none ↦ if c == b'.' then some ([], c ∷ s) else none
]

abbrev pub one_more : Text → Bool
one_more [] = false
one_more (c ∷ []) = false
one_more (c ∷ d ∷ s) = true

abbrev pub proper : Option (Text × Text) → Option (Text × Text)
proper none = none
proper (some (stem, suffix)) =
    if not (is_empty stem) && one_more suffix then some (stem, suffix) else none

unfoldable pub suffix_of : Text → Text
suffix_of name = elim (proper (last_dot name)) [ none ↦ [] | some (stem, suffix) ↦ suffix ]

unfoldable pub stem_of : Text → Text
stem_of name = elim (proper (last_dot name)) [ none ↦ name | some (stem, suffix) ↦ stem ]

-- `parts[:-1]` and `parts[-1]`
abbrev pub folders : List Text → List Text
folders [] = []
folders (part ∷ []) = []
folders (part ∷ next ∷ parts) = part ∷ folders (next ∷ parts)

abbrev pub name_of : List Text → Text
name_of [] = []
name_of (part ∷ []) = part
name_of (part ∷ next ∷ parts) = name_of (next ∷ parts)

abbrev pub document_names : List Text
document_names =
    codes "readme"
    ∷ codes "changelog"
    ∷ codes "contributing"
    ∷ codes "security"
    ∷ codes "releasing"
    ∷ codes "code_of_conduct"
    ∷ []

abbrev pub protected_parts : List Text
protected_parts =
    codes "src"
    ∷ codes "source"
    ∷ codes "sources"
    ∷ codes "test"
    ∷ codes "tests"
    ∷ codes "testdata"
    ∷ codes "fixtures"
    ∷ codes "__tests__"
    ∷ codes "snapshots"
    ∷ codes "resources"
    ∷ codes "assets"
    ∷ codes "templates"
    ∷ codes "scripts"
    ∷ codes "script"
    ∷ codes "tools"
    ∷ codes "ci"
    ∷ codes "workflows"
    ∷ codes "actions"
    ∷ codes "hooks"
    ∷ codes "bin"
    ∷ codes "lib"
    ∷ codes "app"
    ∷ codes "apps"
    ∷ codes "build"
    ∷ codes "dist"
    ∷ codes "target"
    ∷ codes "config"
    ∷ codes "configs"
    ∷ codes "configuration"
    ∷ codes "dependencies"
    ∷ codes "deps"
    ∷ codes "packages"
    ∷ codes "package"
    ∷ codes "packaging"
    ∷ codes "node_modules"
    ∷ codes "gradle"
    ∷ codes "cmake"
    ∷ codes "docker"
    ∷ codes "deploy"
    ∷ codes "deployment"
    ∷ codes "migrations"
    ∷ codes "charts"
    ∷ codes "helm"
    ∷ codes "k8s"
    ∷ codes "vendor-bin"
    ∷ []

abbrev pub is_hidden : Text → Bool
is_hidden [] = false
is_hidden (c ∷ s) = c == b'.'

abbrev pub is_docs : List Text → Bool
is_docs (part ∷ next ∷ parts) = part =t codes "docs"
is_docs _ = false

abbrev pub is_single : List Text → Bool
is_single (part ∷ []) = true
is_single _ = false

module _ (lower : Text → Text) where
  unfoldable pub document_name : Text → Bool
  document_name path =
      literal_path path
      && one_of (codes ".md" ∷ codes ".rst" ∷ []) (lower (suffix_of (name_of (parts_of path))))

  unfoldable pub is_protected : Text → Bool
  is_protected part = is_hidden part || one_of protected_parts part

  -- `documentation_path`
  unfoldable pub documentation_path : Text → List Text → Bool
  documentation_path path explicit =
      let parts = map lower (parts_of path) in
      document_name path
      && not (any is_protected (folders parts))
      && not (is_hidden (name_of parts))
      && (one_of explicit path
          || (is_single parts && one_of document_names (lower (stem_of (name_of (parts_of path)))))
          || is_docs parts)
