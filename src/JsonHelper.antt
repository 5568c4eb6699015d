-- ===== src/JsonHelper.antt =====
-- json-helper: property trees as the contents of data packets and as texts.
use nac_abe.Common.{Bytes}
use nac_abe.Common.Result.{Result, ok, json_parser_error, or_throw, ◌>>=◌}
use nac_abe.Constants.{tlv_content}
use nac_abe.Ndn.{Ndn}
use nac_abe.Packets.{Data}
use nac_abe.Security.{Security}

module _ ⦃ndn : Ndn⦄ ⦃sec : Security⦄ where
  open ndn use {Block, make_binary_block, value}
  open sec use {JsonSection, write_json, read_json}

  unfoldable pub data_content_from_json : JsonSection → Result Block
  data_content_from_json json = do
    s ← or_throw json_parser_error (write_json json)
    ok (make_binary_block tlv_content s)

  unfoldable pub convert_json2string : JsonSection → Result Bytes
  convert_json2string json = or_throw json_parser_error (write_json json)

  unfoldable pub convert_string2json : Bytes → Result JsonSection
  convert_string2json s = or_throw json_parser_error (read_json s)

  -- A packet's content is the value of its Content block, which `readString` reads.
  unfoldable pub get_json_from_data_content : Data → Result JsonSection
  get_json_from_data_content d = or_throw json_parser_error (read_json d.content)
