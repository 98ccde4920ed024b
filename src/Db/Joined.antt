-- ===== src/Db/Joined.antt =====
-- The join of files and discs of SearchFiles, of internal/db/files.go.
use varis.Base.{
  ◌≡◌, ◌⊎◌, inl, inr, true, false, Bool-cases, List, [], ◌∷◌, ◌++◌, if◌then◌else◌, text_eq, All,
  All-append, All-imp,
}
use mathlib.Core.List.{Mem, mem-cons_self, mem-cons_of_mem, mem-append_left, mem-append_right}
use varis.Db.{Disk, FileRecord}
use varis.Db.Search.{join_disks, join_files}

-- A file's row, as it is found with its disc.
abbrev pub shown : FileRecord → Disk → FileRecord
shown f d = record f { disk_is_dry_run = d.is_dry_run }

join_disks-All :
    (P : FileRecord → Type 0) (f : FileRecord) (disks : List Disk)
    → ((d : Disk) → Mem d disks → text_eq d.id f.disk_id ≡ true → P (shown f d))
    → All P (join_disks f disks)
unfolding join_disks
join_disks-All P f [] h = tt
join_disks-All P f (d ∷ disks) h = elim (Bool-cases (text_eq d.id f.disk_id)) [
  | inl same ↦
      rw same (h d mem-cons_self same, join_disks-All P f disks (λ e m. h e (mem-cons_of_mem d m)))
  | inr other ↦ rw other (join_disks-All P f disks (λ e m. h e (mem-cons_of_mem d m)))
]

pub join_files-All :
    (P : FileRecord → Type 0) (files : List FileRecord) (disks : List Disk)
    → ((f : FileRecord)
        → Mem f files
        → (d : Disk) → Mem d disks
        → text_eq d.id f.disk_id ≡ true
        → P (shown f d))
    → All P (join_files files disks)
unfolding join_files
join_files-All P [] disks h = tt
join_files-All P (f ∷ files) disks h =
    All-append P (join_disks f disks) (join_files files disks)
      (join_disks-All P f disks (h f mem-cons_self))
      (join_files-All P files disks (λ g m. h g (mem-cons_of_mem f m)))

join_disks-has :
    (f : FileRecord) (disks : List Disk)
    → All (λ d. text_eq d.id f.disk_id ≡ true → Mem (shown f d) (join_disks f disks)) disks
unfolding join_disks
join_disks-has f [] = tt
join_disks-has f (d ∷ disks) = (
  λ same. rw same mem-cons_self,
  All-imp (λ e. text_eq e.id f.disk_id ≡ true → Mem (shown f e) rest)
      (λ e.
        text_eq e.id f.disk_id ≡ true
        → Mem (shown f e) (if text_eq d.id f.disk_id then shown f d ∷ rest else rest))
      (λ e h same. kept (shown f e) (Bool-cases (text_eq d.id f.disk_id)) (h same)) disks
      (join_disks-has f disks),
)
  where
    rest : List FileRecord
    rest = join_disks f disks

    kept :
        (row : FileRecord)
        → ((text_eq d.id f.disk_id ≡ true) ⊎ (text_eq d.id f.disk_id ≡ false))
        → Mem row rest
        → Mem row (if text_eq d.id f.disk_id then shown f d ∷ rest else rest)
    kept row (inl same) there = rw same (mem-cons_of_mem (shown f d) there)
    kept row (inr other) there = rw other there

pub join_files-has :
    (files : List FileRecord) (disks : List Disk)
    → All
        (λ f.
          All (λ d. text_eq d.id f.disk_id ≡ true → Mem (shown f d) (join_files files disks)) disks)
        files
unfolding join_files
join_files-has [] disks = tt
join_files-has (f ∷ files) disks = (
  All-imp (λ d. text_eq d.id f.disk_id ≡ true → Mem (shown f d) (join_disks f disks))
      (λ d.
        text_eq d.id f.disk_id ≡ true
        → Mem (shown f d) (join_disks f disks ++ join_files files disks))
      (λ d h same. mem-append_left (join_files files disks) (h same)) disks
      (join_disks-has f disks),
  All-imp
      (λ g.
        All (λ d. text_eq d.id g.disk_id ≡ true → Mem (shown g d) (join_files files disks)) disks)
      (λ g.
        All
          (λ d.
            text_eq d.id g.disk_id ≡ true
            → Mem (shown g d) (join_disks f disks ++ join_files files disks))
          disks)
      (λ g.
        All-imp (λ d. text_eq d.id g.disk_id ≡ true → Mem (shown g d) (join_files files disks))
          (λ d.
            text_eq d.id g.disk_id ≡ true
            → Mem (shown g d) (join_disks f disks ++ join_files files disks))
          (λ d h same. mem-append_right (join_disks f disks) (h same)) disks)
      files (join_files-has files disks),
)
