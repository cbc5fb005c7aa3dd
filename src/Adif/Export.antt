-- ===== src/Adif/Export.antt =====
-- The text of an ADIF file (`render_log` of backend/src/adif.rs).
use log.Base.{List, [], ◌∷◌, ◌++◌}
use log.Base.Int.{pos}
use log.Base.Text.{Text, text, decimal, byte_len}
use log.Adif.Names.{normalize_field_name, single_line}

unfoldable pub serialize_field : Text → Text → Text
serialize_field name value =
    let written = single_line value in
    b'<'
    ∷ (normalize_field_name name ++ b':' ∷ (decimal (pos (byte_len written)) ++ b'>' ∷ written))

unfoldable pub serialize_fields : List (Text × Text) → Text
unfolding serialize_field
serialize_fields [] = []
serialize_fields ((name, value) ∷ fields) = serialize_field name value ++ serialize_fields fields

unfoldable pub render_records : List (List (Text × Text)) → Text
unfolding serialize_fields
render_records [] = []
render_records (fields ∷ records) =
    serialize_fields fields ++ (text "<EOR>\n" ++ render_records records)

-- `program_version` is the version in Cargo.toml.
unfoldable pub render : Text → List (List (Text × Text)) → Text
unfolding render_records
render program_version records =
    text "Log73 ADIF Export\n"
    ++ (serialize_field (text "ADIF_VER") (text "3.1.0")
        ++ (serialize_field (text "PROGRAMID") (text "Log73")
            ++ (serialize_field (text "PROGRAMVERSION") program_version
                ++ (text "<EOH>\n" ++ render_records records))))
