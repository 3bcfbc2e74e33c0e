-- ===== src/Hpack/Static.antt =====
-- The static table of src/hpack/static_metadata.cc (RFC 7541, appendix A), as bytes; the entry at 0 is
-- a placeholder. The source finds the index of an entry in a hash map that it fills in the order of the
-- table, where the first of two equal entries stays.
use libhttp.Prelude.{ℕ, suc, List, [], ◌∷◌, get_or, drop, Bool, false, ◌&&◌, ◌||◌, if◌then◌else◌}
use libhttp.Slice.{slice_eq}
use libhttp.Hpack.{MdelemData}

abbrev pub standard_count : ℕ
standard_count = 61

field : List ℕ → List ℕ → MdelemData
field key value = record { key = key; value = value }

unfoldable pub static_mdelem_table : List MdelemData
unfolding field
static_mdelem_table =
    field [] []
    ∷ field (58 ∷ 97 ∷ 117 ∷ 116 ∷ 104 ∷ 111 ∷ 114 ∷ 105 ∷ 116 ∷ 121 ∷ []) []
    ∷ field (58 ∷ 109 ∷ 101 ∷ 116 ∷ 104 ∷ 111 ∷ 100 ∷ []) (71 ∷ 69 ∷ 84 ∷ [])
    ∷ field (58 ∷ 109 ∷ 101 ∷ 116 ∷ 104 ∷ 111 ∷ 100 ∷ []) (80 ∷ 79 ∷ 83 ∷ 84 ∷ [])
    ∷ field (58 ∷ 112 ∷ 97 ∷ 116 ∷ 104 ∷ []) (47 ∷ [])
    ∷ field (58 ∷ 112 ∷ 97 ∷ 116 ∷ 104 ∷ [])
        (47 ∷ 105 ∷ 110 ∷ 100 ∷ 101 ∷ 120 ∷ 46 ∷ 104 ∷ 116 ∷ 109 ∷ 108 ∷ [])
    ∷ field (58 ∷ 115 ∷ 99 ∷ 104 ∷ 101 ∷ 109 ∷ 101 ∷ []) (104 ∷ 116 ∷ 116 ∷ 112 ∷ [])
    ∷ field (58 ∷ 115 ∷ 99 ∷ 104 ∷ 101 ∷ 109 ∷ 101 ∷ []) (104 ∷ 116 ∷ 116 ∷ 112 ∷ 115 ∷ [])
    ∷ field (58 ∷ 115 ∷ 116 ∷ 97 ∷ 116 ∷ 117 ∷ 115 ∷ []) (50 ∷ 48 ∷ 48 ∷ [])
    ∷ field (58 ∷ 115 ∷ 116 ∷ 97 ∷ 116 ∷ 117 ∷ 115 ∷ []) (50 ∷ 48 ∷ 52 ∷ [])
    ∷ field (58 ∷ 115 ∷ 116 ∷ 97 ∷ 116 ∷ 117 ∷ 115 ∷ []) (50 ∷ 48 ∷ 54 ∷ [])
    ∷ field (58 ∷ 115 ∷ 116 ∷ 97 ∷ 116 ∷ 117 ∷ 115 ∷ []) (51 ∷ 48 ∷ 52 ∷ [])
    ∷ field (58 ∷ 115 ∷ 116 ∷ 97 ∷ 116 ∷ 117 ∷ 115 ∷ []) (52 ∷ 48 ∷ 48 ∷ [])
    ∷ field (58 ∷ 115 ∷ 116 ∷ 97 ∷ 116 ∷ 117 ∷ 115 ∷ []) (52 ∷ 48 ∷ 52 ∷ [])
    ∷ field (58 ∷ 115 ∷ 116 ∷ 97 ∷ 116 ∷ 117 ∷ 115 ∷ []) (53 ∷ 48 ∷ 48 ∷ [])
    ∷ field (97 ∷ 99 ∷ 99 ∷ 101 ∷ 112 ∷ 116 ∷ 45 ∷ 99 ∷ 104 ∷ 97 ∷ 114 ∷ 115 ∷ 101 ∷ 116 ∷ []) []
    ∷ field
        (97 ∷ 99 ∷ 99 ∷ 101 ∷ 112 ∷ 116 ∷ 45 ∷ 101 ∷ 110 ∷ 99 ∷ 111 ∷ 100 ∷ 105 ∷ 110 ∷ 103 ∷ [])
        (103 ∷ 122 ∷ 105 ∷ 112 ∷ 44 ∷ 32 ∷ 100 ∷ 101 ∷ 102 ∷ 108 ∷ 97 ∷ 116 ∷ 101 ∷ [])
    ∷ field (97 ∷ 99 ∷ 99 ∷ 101 ∷ 112 ∷ 116 ∷ 45 ∷ 108 ∷ 97 ∷ 110 ∷ 103 ∷ 117 ∷ 97 ∷ 103 ∷ 101 ∷ [])
        []
    ∷ field (97 ∷ 99 ∷ 99 ∷ 101 ∷ 112 ∷ 116 ∷ 45 ∷ 114 ∷ 97 ∷ 110 ∷ 103 ∷ 101 ∷ 115 ∷ []) []
    ∷ field (97 ∷ 99 ∷ 99 ∷ 101 ∷ 112 ∷ 116 ∷ []) []
    ∷ field
        (97 ∷ 99 ∷ 99 ∷ 101 ∷ 115 ∷ 115 ∷ 45 ∷ 99 ∷ 111 ∷ 110 ∷ 116 ∷ 114 ∷ 111 ∷ 108 ∷ 45 ∷ 97
          ∷ 108 ∷ 108 ∷ 111 ∷ 119 ∷ 45 ∷ 111 ∷ 114 ∷ 105 ∷ 103 ∷ 105 ∷ 110 ∷ [])
        []
    ∷ field (97 ∷ 103 ∷ 101 ∷ []) []
    ∷ field (97 ∷ 108 ∷ 108 ∷ 111 ∷ 119 ∷ []) []
    ∷ field (97 ∷ 117 ∷ 116 ∷ 104 ∷ 111 ∷ 114 ∷ 105 ∷ 122 ∷ 97 ∷ 116 ∷ 105 ∷ 111 ∷ 110 ∷ []) []
    ∷ field (99 ∷ 97 ∷ 99 ∷ 104 ∷ 101 ∷ 45 ∷ 99 ∷ 111 ∷ 110 ∷ 116 ∷ 114 ∷ 111 ∷ 108 ∷ []) []
    ∷ field
        (99 ∷ 111 ∷ 110 ∷ 116 ∷ 101 ∷ 110 ∷ 116 ∷ 45 ∷ 100 ∷ 105 ∷ 115 ∷ 112 ∷ 111 ∷ 115 ∷ 105 ∷ 116
          ∷ 105 ∷ 111 ∷ 110 ∷ [])
        []
    ∷ field
        (99 ∷ 111 ∷ 110 ∷ 116 ∷ 101 ∷ 110 ∷ 116 ∷ 45 ∷ 101 ∷ 110 ∷ 99 ∷ 111 ∷ 100 ∷ 105 ∷ 110 ∷ 103
          ∷ [])
        []
    ∷ field
        (99 ∷ 111 ∷ 110 ∷ 116 ∷ 101 ∷ 110 ∷ 116 ∷ 45 ∷ 108 ∷ 97 ∷ 110 ∷ 103 ∷ 117 ∷ 97 ∷ 103 ∷ 101
          ∷ [])
        []
    ∷ field (99 ∷ 111 ∷ 110 ∷ 116 ∷ 101 ∷ 110 ∷ 116 ∷ 45 ∷ 108 ∷ 101 ∷ 110 ∷ 103 ∷ 116 ∷ 104 ∷ [])
        []
    ∷ field
        (99 ∷ 111 ∷ 110 ∷ 116 ∷ 101 ∷ 110 ∷ 116 ∷ 45 ∷ 108 ∷ 111 ∷ 99 ∷ 97 ∷ 116 ∷ 105 ∷ 111 ∷ 110
          ∷ [])
        []
    ∷ field (99 ∷ 111 ∷ 110 ∷ 116 ∷ 101 ∷ 110 ∷ 116 ∷ 45 ∷ 114 ∷ 97 ∷ 110 ∷ 103 ∷ 101 ∷ []) []
    ∷ field (99 ∷ 111 ∷ 110 ∷ 116 ∷ 101 ∷ 110 ∷ 116 ∷ 45 ∷ 116 ∷ 121 ∷ 112 ∷ 101 ∷ []) []
    ∷ field (99 ∷ 111 ∷ 111 ∷ 107 ∷ 105 ∷ 101 ∷ []) []
    ∷ field (100 ∷ 97 ∷ 116 ∷ 101 ∷ []) []
    ∷ field (101 ∷ 116 ∷ 97 ∷ 103 ∷ []) []
    ∷ field (101 ∷ 120 ∷ 112 ∷ 101 ∷ 99 ∷ 116 ∷ []) []
    ∷ field (101 ∷ 120 ∷ 112 ∷ 105 ∷ 114 ∷ 101 ∷ 115 ∷ []) []
    ∷ field (102 ∷ 114 ∷ 111 ∷ 109 ∷ []) []
    ∷ field (104 ∷ 111 ∷ 115 ∷ 116 ∷ []) []
    ∷ field (105 ∷ 102 ∷ 45 ∷ 109 ∷ 97 ∷ 116 ∷ 99 ∷ 104 ∷ []) []
    ∷ field
        (105 ∷ 102 ∷ 45 ∷ 109 ∷ 111 ∷ 100 ∷ 105 ∷ 102 ∷ 105 ∷ 101 ∷ 100 ∷ 45 ∷ 115 ∷ 105 ∷ 110 ∷ 99
          ∷ 101 ∷ [])
        []
    ∷ field (105 ∷ 102 ∷ 45 ∷ 110 ∷ 111 ∷ 110 ∷ 101 ∷ 45 ∷ 109 ∷ 97 ∷ 116 ∷ 99 ∷ 104 ∷ []) []
    ∷ field (105 ∷ 102 ∷ 45 ∷ 114 ∷ 97 ∷ 110 ∷ 103 ∷ 101 ∷ []) []
    ∷ field
        (105 ∷ 102 ∷ 45 ∷ 117 ∷ 110 ∷ 109 ∷ 111 ∷ 100 ∷ 105 ∷ 102 ∷ 105 ∷ 101 ∷ 100 ∷ 45 ∷ 115 ∷ 105
          ∷ 110 ∷ 99 ∷ 101 ∷ [])
        []
    ∷ field (108 ∷ 97 ∷ 115 ∷ 116 ∷ 45 ∷ 109 ∷ 111 ∷ 100 ∷ 105 ∷ 102 ∷ 105 ∷ 101 ∷ 100 ∷ []) []
    ∷ field (108 ∷ 105 ∷ 110 ∷ 107 ∷ []) []
    ∷ field (108 ∷ 111 ∷ 99 ∷ 97 ∷ 116 ∷ 105 ∷ 111 ∷ 110 ∷ []) []
    ∷ field (109 ∷ 97 ∷ 120 ∷ 45 ∷ 102 ∷ 111 ∷ 114 ∷ 119 ∷ 97 ∷ 114 ∷ 100 ∷ 115 ∷ []) []
    ∷ field
        (112 ∷ 114 ∷ 111 ∷ 120 ∷ 121 ∷ 45 ∷ 97 ∷ 117 ∷ 116 ∷ 104 ∷ 101 ∷ 110 ∷ 116 ∷ 105 ∷ 99 ∷ 97
          ∷ 116 ∷ 101 ∷ [])
        []
    ∷ field
        (112 ∷ 114 ∷ 111 ∷ 120 ∷ 121 ∷ 45 ∷ 97 ∷ 117 ∷ 116 ∷ 104 ∷ 111 ∷ 114 ∷ 105 ∷ 122 ∷ 97 ∷ 116
          ∷ 105 ∷ 111 ∷ 110 ∷ [])
        []
    ∷ field (114 ∷ 97 ∷ 110 ∷ 103 ∷ 101 ∷ []) []
    ∷ field (114 ∷ 101 ∷ 102 ∷ 101 ∷ 114 ∷ 101 ∷ 114 ∷ []) []
    ∷ field (114 ∷ 101 ∷ 102 ∷ 114 ∷ 101 ∷ 115 ∷ 104 ∷ []) []
    ∷ field (114 ∷ 101 ∷ 116 ∷ 114 ∷ 121 ∷ 45 ∷ 97 ∷ 102 ∷ 116 ∷ 101 ∷ 114 ∷ []) []
    ∷ field (115 ∷ 101 ∷ 114 ∷ 118 ∷ 101 ∷ 114 ∷ []) []
    ∷ field (115 ∷ 101 ∷ 116 ∷ 45 ∷ 99 ∷ 111 ∷ 111 ∷ 107 ∷ 105 ∷ 101 ∷ []) []
    ∷ field
        (115 ∷ 116 ∷ 114 ∷ 105 ∷ 99 ∷ 116 ∷ 45 ∷ 116 ∷ 114 ∷ 97 ∷ 110 ∷ 115 ∷ 112 ∷ 111 ∷ 114 ∷ 116
          ∷ 45 ∷ 115 ∷ 101 ∷ 99 ∷ 117 ∷ 114 ∷ 105 ∷ 116 ∷ 121 ∷ [])
        []
    ∷ field
        (116 ∷ 114 ∷ 97 ∷ 110 ∷ 115 ∷ 102 ∷ 101 ∷ 114 ∷ 45 ∷ 101 ∷ 110 ∷ 99 ∷ 111 ∷ 100 ∷ 105 ∷ 110
          ∷ 103 ∷ [])
        []
    ∷ field (117 ∷ 115 ∷ 101 ∷ 114 ∷ 45 ∷ 97 ∷ 103 ∷ 101 ∷ 110 ∷ 116 ∷ []) []
    ∷ field (118 ∷ 97 ∷ 114 ∷ 121 ∷ []) []
    ∷ field (118 ∷ 105 ∷ 97 ∷ []) []
    ∷ field
        (119 ∷ 119 ∷ 119 ∷ 45 ∷ 97 ∷ 117 ∷ 116 ∷ 104 ∷ 101 ∷ 110 ∷ 116 ∷ 105 ∷ 99 ∷ 97 ∷ 116 ∷ 101
          ∷ [])
        []
    ∷ []

-- `hpack_static_headers[i]` for an index in range.
unfoldable pub static_mdelem : ℕ → MdelemData
static_mdelem i = get_or static_mdelem_table i (record { key = []; value = [] })

-- The first entry with the name and the value, from index `i` on; 0 if there is none.
unfoldable pub index_from : ℕ → List MdelemData → MdelemData → ℕ
index_from i [] mdel = 0
index_from i (e ∷ es) mdel =
    let rest = index_from (suc i) es mdel in
    if slice_eq e.key mdel.key && slice_eq e.value mdel.value then i else rest

unfoldable pub full_match_static_mdelem_index : MdelemData → ℕ
full_match_static_mdelem_index mdel = index_from 1 (drop 1 static_mdelem_table) mdel

unfoldable pub key_among : List MdelemData → List ℕ → Bool
key_among [] key = false
key_among (e ∷ es) key = let rest = key_among es key in slice_eq e.key key || rest

unfoldable pub check_key_exists : List ℕ → Bool
check_key_exists key = key_among (drop 1 static_mdelem_table) key
