-- ===== src/Common/DataStructs.antt =====
-- The options of requests that the producer encodes as numbers, and their reading by the receiver
-- (common/cpp/include/asapo/common/data_structs.h).
use asapo.Base.{
  ℕ, ◌+◌, ◌-◌, ◌*◌, ◌/◌, ◌%◌, ◌≡◌, ◌≢◌, refl, Bool, true, false, ltb, leb, ◌==◌, if◌then◌else◌,
}
use asapo.Common.Database.Write.{
  MetaIngestOp, insert_op, replace_op, update_op, unknown_op, MetaIngestMode,
}

pub record DeleteStreamOptions : Type 0 where
  pub delete_meta : Bool
  pub error_on_not_exist : Bool

pub encode_options : DeleteStreamOptions → ℕ
encode_options o = (if o.delete_meta then 1 else 0) + (if o.error_on_not_exist then 2 else 0)

unfoldable pub decode_options : ℕ → DeleteStreamOptions
decode_options flag = record { delete_meta = flag % 2 == 1; error_on_not_exist = flag / 2 % 2 == 1 }

-- The value of an operation; `unknown_op` stands for 0.
pub value_of_op : MetaIngestOp → ℕ
value_of_op insert_op = 1
value_of_op replace_op = 2
value_of_op update_op = 3
value_of_op unknown_op = 0

pub encode_mode : MetaIngestMode → ℕ
unfolding value_of_op
encode_mode m = value_of_op m.op + 10 * (if m.upsert then 1 else 0)

pub op_of : ℕ → MetaIngestOp
op_of val =
    if val == 1
    then insert_op
    else if val == 2
    then replace_op
    else if val == 3
    then update_op
    else unknown_op

-- `unset` is the operation of a mode that is not initialised, which stays for other values.
unfoldable pub decode_mode : MetaIngestOp → ℕ → MetaIngestMode
unfolding op_of
decode_mode unset code =
    let upsert = ltb 10 code in
    let val = code - (if upsert then 10 else 0) in
    record { op = if leb val 3 then op_of val else unset; upsert = upsert }

options_fields :
    (a b : Bool)
    → decode_options (encode_options (record { delete_meta = a; error_on_not_exist = b }))
      ≡ record { delete_meta = a; error_on_not_exist = b }
unfolding decode_options encode_options
options_fields true true = refl
options_fields true false = refl
options_fields false true = refl
options_fields false false = refl

mode_fields :
    (unset op : MetaIngestOp) (upsert : Bool)
    → op ≢ unknown_op
    → decode_mode unset (encode_mode (record { op = op; upsert = upsert }))
      ≡ record { op = op; upsert = upsert }
unfolding decode_mode encode_mode value_of_op op_of
mode_fields unset insert_op true known = refl
mode_fields unset insert_op false known = refl
mode_fields unset replace_op true known = refl
mode_fields unset replace_op false known = refl
mode_fields unset update_op true known = refl
mode_fields unset update_op false known = refl
mode_fields unset unknown_op upsert known = absurd (known refl)

-- The options of a deletion are read as they were encoded, and so is the mode of an ingestion of metadata
-- whose operation is a known one, whatever an operation that is not set would be.
decode-encode_options :
    (o : DeleteStreamOptions) (unset : MetaIngestOp) (m : MetaIngestMode)
    → m.op ≢ unknown_op
    → (decode_options (encode_options o) ≡ o) × (decode_mode unset (encode_mode m) ≡ m)
decode-encode_options o unset m known =
    (options_fields o.delete_meta o.error_on_not_exist, mode_fields unset m.op m.upsert known)
