-- ===== src/Ps2/Tests.antt =====
-- A key of the key map.
use bloreos.Base.{◌≡◌, some, [], get_or, arith}
use bloreos.Ps2.Keys.{key, key_map, register_keys}
use bloreos.Ps2.Table.{no_keys, register_keys_lem}

register_keys_lem_example :
    let keys = register_keys key_map no_keys in
    (keys.registered_twice ≡ [])
    × (keys.scancode_map (get_or key_map 1 (key 0 0 0)).scan_code
        ≡ some (get_or key_map 1 (key 0 0 0)))
register_keys_lem_example = register_keys_lem 1 (key 0 0 0) (omega arith)
