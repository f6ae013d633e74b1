-- ===== src/Lww/Launch/Exact.antt =====
-- How the start of a replica ends, by its arguments and its file.
use Prim.Native.String.{◌++◌ as ◌+str◌}
use tors_hw.Base.{
  ℕ, ◌≡◌, ◌⊎◌, inl, inr, refl, ap, ◌∙◌, ℤ, pos, negsuc, String, Option, some, List, ok, err, Fault,
  panic, fatal, get_elem?, Option-cases, none-some, some-same,
}
use tors_hw.Lww.Config.{load_config_from_file}
use tors_hw.Lww.Cluster.{init}
use tors_hw.Lww.Launch.{
  scanned, config_at, new_server, listen, with_id, with_config, with_file, main,
}

module _ (read : String → Option String) (scan_int scan_port : String → Option ℤ)
    (print : ℤ → String) where
  -- Arguments and a file with which a replica can start, and its index.
  pub record Ready (args : List String) : Type 0 where
    pub file_name : String
    pub first : get_elem? args 1 ≡ some file_name
    pub config : List String
    pub loaded : load_config_from_file read file_name ≡ some config
    pub field : String
    pub second : get_elem? args 2 ≡ some field
    pub id : ℕ
    pub named : scanned (scan_int field) ≡ pos id
    pub own : String
    pub listed : get_elem? config id ≡ some own

  -- A replica that can start is, with its state, the one that a new cluster has at its index.
  starts :
      (args : List String) (r : Ready args)
      → main read scan_int scan_port print args
        ≡ ok (record {
          state = ((init r.config).replica r.id).state;
          addr = ◌+str◌ ":" (print (scanned (scan_port r.own)));
        })
  unfolding main with_file with_config with_id listen init config_at new_server
  starts args r = rw (r.first, r.loaded, r.second, r.named, r.listed) refl

  config_at-pos :
      (config : List String) (i : ℤ) (own : String)
      → config_at config i ≡ some own
      → (n : ℕ) × (i ≡ pos n) × (get_elem? config n ≡ some own)
  unfolding config_at
  config_at-pos config (pos n) own h = (n, refl, h)
  config_at-pos config (negsuc n) own h = cc

  -- Refused arguments, with the fault.
  abbrev pub Fails : List String → Type 0
  Fails args = (Ready args → ⊥) × (f : Fault) × (main read scan_int scan_port print args ≡ err f)

  -- What can start is found where the code looks.
  same_config :
      (args : List String) (file_name : String) (config : List String) (field : String)
      → get_elem? args 1 ≡ some file_name
      → load_config_from_file read file_name ≡ some config
      → get_elem? args 2 ≡ some field
      → (r : Ready args) → config_at config (scanned (scan_int field)) ≡ some r.own
  unfolding config_at
  same_config args file_name config field first loaded second r =
      let same_file = some-same first r.first in
      let same : config ≡ r.config =
        some-same loaded (ap (load_config_from_file read) same_file ∙ r.loaded) in
      let same_field = some-same second r.second in
      ap (λ c. config_at c (scanned (scan_int field))) same
      ∙ ap (λ f. config_at r.config (scanned (scan_int f))) same_field
      ∙ ap (config_at r.config) r.named
      ∙ r.listed

  listen_exact :
      (args : List String) (file_name : String) (config : List String) (field : String)
      → get_elem? args 1 ≡ some file_name
      → load_config_from_file read file_name ≡ some config
      → get_elem? args 2 ≡ some field
      → Ready args ⊎ Fails args
  unfolding main with_file with_config with_id listen
  listen_exact args file_name config field first loaded second =
      elim (Option-cases (config_at config (scanned (scan_int field)))) [
        | inl past ↦ inr (
          (λ r. none-some past (same_config args file_name config field first loaded second r)),
          panic,
          rw (first, loaded, second, past) refl,
        )
        | inr (own, at) ↦
            let (id, named, listed) = config_at-pos config (scanned (scan_int field)) own at in
            inl (record {
              file_name = file_name;
              first = first;
              config = config;
              loaded = loaded;
              field = field;
              second = second;
              id = id;
              named = named;
              own = own;
              listed = listed;
            })
      ]

  Ready-or_Fails : (args : List String) → Ready args ⊎ Fails args
  unfolding main with_file with_config with_id
  Ready-or_Fails args = elim (Option-cases (get_elem? args 1)) [
    | inl missing ↦ inr ((λ r. none-some missing r.first), panic, rw missing refl)
    | inr (file_name, first) ↦ elim (Option-cases (load_config_from_file read file_name)) [
      | inl unread ↦ inr (
        (λ r.
            none-some unread
              (ap (load_config_from_file read) (some-same first r.first) ∙ r.loaded)),
        fatal,
        rw (first, unread) refl,
      )
      | inr (config, loaded) ↦ elim (Option-cases (get_elem? args 2)) [
        | inl missing ↦
            inr ((λ r. none-some missing r.second), panic, rw (first, loaded, missing) refl)
        | inr (field, second) ↦ listen_exact args file_name config field first loaded second
      ]
    ]
  ]

  -- A start ends in one of two ways. There are two arguments, the first names a file that is read, and
  -- the second an index of one of its lines, 0 where it is no number: the replica then listens at the
  -- port of that line, with the state that a new cluster of these addresses has at that index. Or one
  -- of these fails, and the process panics or log.Fatal ends it.
  pub start_exact :
      (args : List String)
      → ((r : Ready args) × (main read scan_int scan_port print args
            ≡ ok (record {
              state = ((init r.config).replica r.id).state;
              addr = ◌+str◌ ":" (print (scanned (scan_port r.own)));
            })))
        ⊎ Fails args
  start_exact args = elim (Ready-or_Fails args) [
    | inl r ↦ inl (r, starts args r)
    | inr fails ↦ inr fails
  ]
