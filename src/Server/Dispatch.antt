-- ===== src/Server/Dispatch.antt =====
-- main.go: `handleGetInfo`, and `handleCtap2`, which picks the handler by the first byte.
use linux_id.Common.{
  pos, Bool, true, Option, none, some, [], ◌∷◌, Bytes, codes, ◌==◌, if◌then◌else◌,
}
use linux_id.Ctap2.Types.{
  cmd_make_credential, cmd_get_assertion, cmd_get_info, status_ok, status_invalid_cbor,
  status_not_allowed,
}
use linux_id.Verifier.{Prompt, caching_performs_uv}
use linux_id.Server.Types.{
  Signer, Cbor, int, bytes, text, boolean, array, mapping, no_items, item, no_fields, field,
  int_key, text_key, Services, Server, ctap2, Ending, replied, aaguid,
}
use linux_id.Server.MakeCredential.{refuse, handle_make_credential}
use linux_id.Server.GetAssertion.{handle_get_assertion}

-- The options and the information that `handleGetInfo` sends.
unfoldable pub info_response : Bool → Cbor
info_response uv = mapping (
    field (int_key (pos 1))
      (array (item (text (codes "FIDO_2_0")) (item (text (codes "U2F_V2")) no_items)))
      (field (int_key (pos 3)) (bytes aaguid) (
        field (int_key (pos 4))
          (mapping (
            field (text_key (codes "rk")) (boolean true) (
              field (text_key (codes "up")) (boolean true)
                (field (text_key (codes "uv")) (boolean uv) no_fields))))
          (field (int_key (pos 5)) (int (pos 1200)) no_fields))))

abbrev pub info_reply : Option Bytes → Ending
info_reply none = refuse status_invalid_cbor
info_reply (some encoded) = replied (ctap2 status_ok encoded)

module _ {S : Type 0} (signer : Signer S) (lib : Services) where
  unfoldable pub handle_get_info : Server S → Server S × Ending
  handle_get_info s =
      (s, info_reply (lib.cbor_marshal (info_response (caching_performs_uv s.verifier))))

  unfoldable pub handle_ctap2 : Server S → Prompt → Bytes → Server S × Ending
  handle_ctap2 s p [] = (s, refuse status_invalid_cbor)
  handle_ctap2 s p (cmd ∷ payload) =
      if cmd == cmd_get_info
      then handle_get_info s
      else if cmd == cmd_make_credential
      then handle_make_credential signer lib s p payload
      else if cmd == cmd_get_assertion
      then handle_get_assertion signer lib s p payload
      else (s, refuse status_not_allowed)
