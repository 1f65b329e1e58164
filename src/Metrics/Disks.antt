-- ===== src/Metrics/Disks.antt =====
-- Classes diskUsageRess and diskUsageCollector of collectors/diskusage.cpp: the use of the mounted
-- file systems. url_encode of the same file is in Metrics/Loads.
pub mod Ids
use watched_agent.Base.{
  ℕ, ◌*◌, ◌%◌, ◌^◌, Bool, false, ◌&&◌, ◌||◌, List, [], ◌∷◌, ◌++◌, Option, none, some, if◌then◌else◌,
  Str, str_eq, codes, lookup, insert, ◌==◌, ◌>>=◌,
}
use watched_agent.Json.{Json}
use watched_agent.Resource.{Counter, Resource, new_resource, next_value}
use watched_agent.Metrics.Memory.{set_properties}
use watched_agent.Metrics.Loads.{url_encode}

-- What is read of a struct statvfs, unsigned long.
pub record Stats : Type 0 where
  pub bsize : ℕ
  pub blocks : ℕ
  pub bavail : ℕ
  pub files : ℕ
  pub favail : ℕ

-- An entry of /etc/mtab, with what statvfs gives for its directory.
pub record Mount : Type 0 where
  pub dir : Str
  pub fsname : Str
  pub type : Str
  pub stats : Option Stats

unfoldable pub starts_with_slash : Str → Bool
starts_with_slash [] = false
starts_with_slash (c ∷ s) = c == b'/'

-- The entries that are not passed over.
unfoldable pub is_storage : Mount → Bool
is_storage m =
    starts_with_slash m.dir
    && (starts_with_slash m.fsname
        || (str_eq m.type (codes "tmpfs") || str_eq m.type (codes "udev")))

module _ (json : Json) where
  open json use {Value, of_double, double_of, div}

  -- A product on unsigned long over another number, as a double.
  unfoldable pub ratio : ℕ → ℕ → Value
  ratio a b = of_double (div (double_of (a % 2 ^ 64)) (double_of b))

  -- diskUsageRess::setStats
  unfoldable pub set_stats :
      Value → Stats → Resource json × Counter → Option (Resource json × Counter)
  unfolding ratio
  set_stats now s r = do
    let (res, c) = next_value json now r.0 r.1
    res' ←
        set_properties json
          ((codes "size", ratio (s.bsize * s.blocks) (1024 * 1024))
            ∷ (codes "free", ratio (s.bsize * s.bavail) (1024 * 1024))
            ∷ (codes "pctfree", ratio (s.bavail * 100) s.blocks)
            ∷ (codes "ipctfree", ratio (s.favail * 100) s.files)
            ∷ [])
          res
    some (res', c)

  pub record Disks : Type 0 where
    pub resources : List (Str × Resource json)
    pub desc : List (Str × Str)
    pub counter : Counter

  -- One round of the loop; `history` is the size of a new history.
  unfoldable pub use_mount : Value → ℕ → Mount → Stats → Disks → Option Disks
  unfolding set_stats
  use_mount now history m stats d =
      let id = url_encode m.dir in
      let fresh : Resource json × List (Str × Str) = elim (lookup str_eq id d.resources) [
        | some r ↦ (r, d.desc)
        | none ↦ (new_resource json history, insert str_eq id (m.dir ++ codes " disk usage") d.desc)
      ] in
      set_stats now stats (fresh.0, d.counter) >>= λ s.
      some (record { resources = insert str_eq id s.0 d.resources; desc = fresh.1; counter = s.1 })

  -- diskUsageCollector::collect
  unfoldable pub collect_disks : Value → ℕ → List Mount → Disks → Option Disks
  unfolding is_storage use_mount
  collect_disks now history [] d = some d
  collect_disks now history (m ∷ ms) d =
      let rest = collect_disks now history ms d in
      if is_storage m
      then elim m.stats [
        | none ↦ rest
        | some stats ↦ use_mount now history m stats d >>= collect_disks now history ms
      ]
      else rest
