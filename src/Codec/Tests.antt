-- ===== src/Codec/Tests.antt =====
-- The codec at small inputs.
use ledgergate.Base.{◌≡◌, refl, some, nat_eq, list_eq}
use ledgergate.Text.{text}
use ledgergate.Errors.{ok}
use ledgergate.Ledger.Commands.{Command, advance}
use ledgergate.Ledger.Lifecycle.{settle, is_refund}
use ledgergate.Ledger.Samples.{sale, first_sale}
use ledgergate.Ledger.Injective.{draft_canonical-injective}
use ledgergate.Codec.Command.{encode_command, decode_command}
use ledgergate.Codec.CommandTrip.{decode_command-encode_command}
use ledgergate.Codec.Requests.{request_body-injective}
use ledgergate.Codec.Samples.{registry, sale-IsEncodable}

abbrev settle_sale : Command
settle_sale = advance (text "k") (text "t") settle (some sale)

decode_command-encode_command_example :
    decode_command (encode_command settle_sale) registry ≡ ok settle_sale
unfolding is_refund
decode_command-encode_command_example =
    decode_command-encode_command registry settle_sale (refl, sale-IsEncodable)

draft_canonical-injective_example : sale ≡ sale
draft_canonical-injective_example = draft_canonical-injective sale sale refl

request_body-injective_example : first_sale ≡ first_sale
request_body-injective_example = request_body-injective first_sale first_sale refl refl
