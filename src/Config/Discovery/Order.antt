-- ===== src/Config/Discovery/Order.antt =====
-- pkg/configstack/micrun_configs.go: the files that are found, their formats and their order.
use micrun.Prelude.{
  List, [], ◌∷◌, Bool, true, false, not, ◌||◌, Bytes, codes, if◌then◌else◌, ◌≡◌, refl, arith,
  Bool-cases, inl, inr, All,
}
use micrun.Container.Presence.{is_nil}
use micrun.Config.Discovery.{
  MicrunConfigFile, Directory, missing, unreadable, listing, Surroundings, is_unknown,
  detect_config_format, make_config_file, path_less, insert_file, sort_files, config_files, Found,
  not_exist, failed, found, listed, list_micrun_config_dir, single, default_config_file,
  default_or_none, or_default, search_default, or_search, discover_micrun_config_files,
}

-- A file whose format is known and is that of its extension.
abbrev pub IsKnown : MicrunConfigFile → Type 0
IsKnown f = (f.format ≡ detect_config_format f.path) × (is_unknown f.format ≡ false)

abbrev pub Ascending : List MicrunConfigFile → Type 0
Ascending [] = Unit
Ascending (f ∷ []) = Unit
Ascending (f ∷ g ∷ gs) = (path_less g.path f.path ≡ false) × Ascending (g ∷ gs)

-- What a search promises.
abbrev pub IsOrderly : Found → Type 0
IsOrderly not_exist = Unit
IsOrderly failed = Unit
IsOrderly (found files) = All IsKnown files × Ascending files

path_less_asym : (s t : Bytes) → path_less s t ≡ true → path_less t s ≡ false
unfolding path_less
path_less_asym [] [] h = refl
path_less_asym [] (b ∷ t) h = refl
path_less_asym (a ∷ s) [] h = cc
path_less_asym (a ∷ s) (b ∷ t) h = ground (arith, path_less_asym s t)

insert_file-Ascending :
    (f : MicrunConfigFile) (gs : List MicrunConfigFile)
    → Ascending gs
    → Ascending (insert_file f gs)
insert_file-Ascending f [] h = tt
insert_file-Ascending f (g ∷ []) h = elim (Bool-cases (path_less f.path g.path)) [
  | inl less ↦ rw less (path_less_asym f.path g.path less, tt)
  | inr other ↦ rw other (other, tt)
]
insert_file-Ascending f (g ∷ k ∷ ks) (first, rest) =
    let inserted = insert_file-Ascending f (k ∷ ks) rest in
    elim (Bool-cases (path_less f.path g.path)) [
      | inl less ↦ rw less (path_less_asym f.path g.path less, (first, rest))
      | inr other ↦ elim (Bool-cases (path_less f.path k.path)) [
        | inl less ↦ rw other (rw less (other, rw less at inserted))
        | inr later ↦ rw other (rw later (first, rw later at inserted))
      ]
    ]

insert_file-All :
    (f : MicrunConfigFile) (gs : List MicrunConfigFile)
    → IsKnown f
    → All IsKnown gs
    → All IsKnown (insert_file f gs)
insert_file-All f [] h hs = (h, tt)
insert_file-All f (g ∷ gs) h (hg, hs) = elim (Bool-cases (path_less f.path g.path)) [
  | inl less ↦ rw less (h, (hg, hs))
  | inr other ↦ rw other (hg, insert_file-All f gs h hs)
]

sort_files-Orderly :
    (fs : List MicrunConfigFile)
    → All IsKnown fs
    → All IsKnown (sort_files fs) × Ascending (sort_files fs)
unfolding sort_files
sort_files-Orderly [] h = (tt, tt)
sort_files-Orderly (f ∷ fs) (h, hs) =
    let (known, ascending) = sort_files-Orderly fs hs in
    (insert_file-All f (sort_files fs) h known, insert_file-Ascending f (sort_files fs) ascending)

module _ (around : Surroundings) where
  config_files-All :
      (dir : Bytes) (entries : List (Bytes × Bool)) → All IsKnown (config_files around dir entries)
  unfolding config_files
  config_files-All dir [] = tt
  config_files-All dir ((name, true) ∷ entries) = config_files-All dir entries
  config_files-All dir ((name, false) ∷ entries) =
      elim (Bool-cases (is_unknown (detect_config_format (around.inside dir name)))) [
        | inl strange ↦ rw strange (config_files-All dir entries)
        | inr known ↦ rw known ((refl, known), config_files-All dir entries)
      ]

  listed-IsOrderly : (dir : Bytes) (d : Directory) → IsOrderly (listed around dir d)
  listed-IsOrderly dir missing = tt
  listed-IsOrderly dir unreadable = tt
  listed-IsOrderly dir (listing entries) =
      sort_files-Orderly (config_files around dir entries) (config_files-All dir entries)

  if-IsOrderly :
      (b : Bool) (r r' : Found) → IsOrderly r → IsOrderly r' → IsOrderly (if b then r else r')
  if-IsOrderly true r r' h h' = h
  if-IsOrderly false r r' h h' = h'

  list_micrun_config_dir-IsOrderly : (dir : Bytes) → IsOrderly (list_micrun_config_dir around dir)
  unfolding list_micrun_config_dir
  list_micrun_config_dir-IsOrderly dir =
      if-IsOrderly (is_nil dir) (found []) (listed around dir (around.read_dir dir)) (tt, tt)
        (listed-IsOrderly dir (around.read_dir dir))

  make_config_file-IsOrderly : (path : Bytes) → IsOrderly (single (make_config_file around path))
  unfolding make_config_file
  make_config_file-IsOrderly path =
      elim (Bool-cases (not (around.is_regular path) || is_unknown (detect_config_format path))) [
        | inl strange ↦ rw strange tt
        | inr fine ↦ rw fine (((refl, ground arith), tt), tt)
      ]

  default_or_none-IsOrderly : IsOrderly (default_or_none around)
  default_or_none-IsOrderly =
      if-IsOrderly (around.exists default_config_file)
        (single (make_config_file around default_config_file)) (found [])
        (make_config_file-IsOrderly default_config_file) (tt, tt)

  or_default-IsOrderly : (r : Found) → IsOrderly r → IsOrderly (or_default around r)
  or_default-IsOrderly not_exist h = default_or_none-IsOrderly
  or_default-IsOrderly failed h = tt
  or_default-IsOrderly (found []) h = default_or_none-IsOrderly
  or_default-IsOrderly (found (f ∷ fs)) h = h

  search_default-IsOrderly : IsOrderly (search_default around)
  search_default-IsOrderly =
      or_default-IsOrderly (list_micrun_config_dir around (codes "/etc/mica/micrun/conf.d"))
        (list_micrun_config_dir-IsOrderly (codes "/etc/mica/micrun/conf.d"))

  or_search-IsOrderly : (r : Found) → IsOrderly r → IsOrderly (or_search around r)
  or_search-IsOrderly not_exist h = tt
  or_search-IsOrderly failed h = tt
  or_search-IsOrderly (found []) h = search_default-IsOrderly
  or_search-IsOrderly (found (f ∷ fs)) h = h

  -- The files that DiscoverMicrunConfigFiles finds have the known format of their extension, and stand in
  -- the ascending order of their paths.
  pub discover_micrun_config_files-IsOrderly : IsOrderly (discover_micrun_config_files around)
  unfolding discover_micrun_config_files
  discover_micrun_config_files-IsOrderly =
      let by_dir = or_search around (list_micrun_config_dir around around.conf_dir) in
      if-IsOrderly (not (is_nil around.conf_file))
        (single (make_config_file around around.conf_file))
        (if not (is_nil around.conf_dir) then by_dir else search_default around)
        (make_config_file-IsOrderly around.conf_file)
        (if-IsOrderly (not (is_nil around.conf_dir)) by_dir (search_default around)
          (or_search-IsOrderly (list_micrun_config_dir around around.conf_dir)
            (list_micrun_config_dir-IsOrderly around.conf_dir))
          search_default-IsOrderly)
