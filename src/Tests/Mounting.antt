-- ===== src/Tests/Mounting.antt =====
-- Requests of a WebDAV client.
use varis.Base.{
  ℕ, ◌+◌, ◌-◌, ◌^◌, ◌≤◌, ◌<◌, ◌≡◌, ◌↔◌, refl, ap, List, [], ◌∷◌, none, some, arith, codes, text_eq,
  contains, message, ok, length, All, int64_limit,
}
use varis.Base.Dict.{Dict, insert}
use varis.Base.Effect.{pure, throw}
use varis.Binpack.{FileInfo}
use varis.Webdav.Clean.{
  IsProper, parts_of, split, category_and_rest, split-IsProper, resolve_part, resolve_parts,
}
use varis.Base.Splitting.{split_on, cut, join_with}
use varis.Webdav.Combined.{FileSystem, RootDir}
use varis.Webdav.Isolation.{call_rename, perform, perform-insert}
use varis.Webdav.Listing.{dir_infos, readdir, readdir-eq-none, read_all, read_all-eq-some}

climbing : split (codes "/staging/../dryrun/./a//b") ≡ some (codes "dryrun", codes "/a/b")
unfolding split resolve_part resolve_parts join_with text_eq split_on cut
climbing = refl

split-IsProper_example :
    All IsProper (parts_of (codes "/staging/../../dryrun/a"))
    × (split (codes "/staging/../../dryrun/a")
        ≡ category_and_rest (parts_of (codes "/staging/../../dryrun/a")))
split-IsProper_example = split-IsProper (codes "/staging/../../dryrun/a")

abbrev empty_dir : FileSystem ℕ ℕ ℕ
empty_dir = record {
  mkdir = λ _ _. pure tt;
  open_file = λ _ _ _. pure 0;
  remove_all = λ _ n. (ok tt, n + 1);
  rename = λ _ _ n. (ok tt, n + 1);
  stat = λ _. pure 0;
}

abbrev broken_dir : FileSystem ℕ ℕ ℕ
broken_dir = record empty_dir { rename = λ _ _. throw (message (codes "broken") []) }

abbrev categories : Dict (FileSystem ℕ ℕ ℕ)
categories = (codes "staging", empty_dir) ∷ (codes "dryrun", empty_dir) ∷ []

perform-insert_example :
    perform
      (insert (codes "staging") broken_dir categories)
      (call_rename (codes "/dryrun/a") (codes "/staging/b"))
      5
    ≡ perform categories (call_rename (codes "/dryrun/a") (codes "/staging/b")) 5
unfolding contains text_eq resolve_part resolve_parts split_on
perform-insert_example =
    perform-insert (codes "staging") broken_dir categories
      (call_rename (codes "/dryrun/a") (codes "/staging/b")) 5 refl
      (λ e. ground (arith, ap length e))

abbrev root : RootDir
root = record { names = codes "dryrun" ∷ codes "retrieved" ∷ codes "staging" ∷ []; offset = 0 }

read_all-eq-some_example :
    read_all 4 2 root ≡ some (dir_infos (codes "dryrun" ∷ codes "retrieved" ∷ codes "staging" ∷ []))
read_all-eq-some_example = read_all-eq-some 3 2 root (omega arith) (omega arith) (omega arith)

readdir-eq-none_example :
    (readdir (record root { offset = 1 }) (2 ^ 63 - 1) ≡ none)
    ↔ ((1 < 3) × (2 ^ 63 - 1 < int64_limit) × (int64_limit ≤ 1 + (2 ^ 63 - 1)))
readdir-eq-none_example =
    readdir-eq-none (record root { offset = 1 }) (2 ^ 63 - 1) (omega arith) (omega arith)

abbrev one_file : List FileInfo
one_file = record { path = codes "a"; size = 6 } ∷ []
