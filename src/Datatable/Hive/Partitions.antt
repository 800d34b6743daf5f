-- ===== src/Datatable/Hive/Partitions.antt =====
-- The partitions of pkg/utils/hive/hiveClient.go: their names as clauses of a statement.
use fluid_data_table.Base.{ℕ, false, some, List, [], ◌∷◌, ◌++◌, ◌≡◌, refl, All, map, ◌∙◌, ap}
use fluid_data_table.Base.Text.{Text, codes, split, split_single, split-append, join, has_byte}
use fluid_data_table.Datatable.World.{Env}
use fluid_data_table.Datatable.Hive.{partition_kv, filter_parts, partition_filter}

-- `k=v` and `k='v'`
abbrev pub equals : Text × Text → Text
equals (k, v) = k ++ (codes "=" ++ v)

abbrev pub equals_quoted : Text × Text → Text
equals_quoted (k, v) = k ++ (codes "='" ++ (v ++ codes "'"))

-- A column and a value that a partition's name can carry.
abbrev pub IsPlain : Text × Text → Type 0
IsPlain (k, v) =
    (has_byte b'=' k ≡ false) × (has_byte b'=' v ≡ false) × (has_byte b'/' (equals (k, v)) ≡ false)

split-join :
    (c : ℕ) (w : Text) (ws : List Text)
    → All (λ t. has_byte c t ≡ false) (w ∷ ws)
    → split c (join (c ∷ []) (w ∷ ws)) ≡ w ∷ ws
unfolding join
split-join c w [] (h, _) = split_single c w h
split-join c w (v ∷ ws) (h, hs) =
    split-append c w (join (c ∷ []) (v ∷ ws)) h ∙ ap (λ us. w ∷ us) (split-join c v ws hs)

module _ (env : Env) where
  partition_kv-equals :
      (c : Text × Text) → IsPlain c → partition_kv env (equals c) ≡ some (equals_quoted c)
  unfolding partition_kv
  partition_kv-equals (k, v) (hk, hv, _) =
      rw (split-append b'=' k v hk, partition_kv) (rw (split_single b'=' v hv) refl)

  filter_parts-map :
      (columns : List (Text × Text))
      → All IsPlain columns
      → filter_parts env (map equals columns) ≡ some (map equals_quoted columns)
  unfolding filter_parts
  filter_parts-map [] h = refl
  filter_parts-map (c ∷ columns) (h, hs) =
      rw (partition_kv-equals c h, filter_parts) (rw (filter_parts-map columns hs) refl)

  no_slash :
      (columns : List (Text × Text))
      → All IsPlain columns
      → All (λ t. has_byte b'/' t ≡ false) (map equals columns)
  no_slash [] h = tt
  no_slash (c ∷ columns) (h, hs) = (h.2, no_slash columns hs)

  -- The name of a partition, `k1=v1/k2=v2/...`, becomes the clause `partition(k1='v1',k2='v2',...)`,
  -- if no column and no value has an equals sign or a slash.
  pub partition_filter-join :
      (c : Text × Text) (columns : List (Text × Text))
      → All IsPlain (c ∷ columns)
      → partition_filter env (join (codes "/") (map equals (c ∷ columns)))
        ≡ some (
            codes "partition(" ++ (join (codes ",") (map equals_quoted (c ∷ columns)) ++ codes ")"))
  unfolding partition_filter
  partition_filter-join c columns h =
      rw
        (
          split-join b'/' (equals c) (map equals columns) (no_slash (c ∷ columns) h),
          partition_filter,
        )
        (rw (filter_parts-map (c ∷ columns) h) refl)
