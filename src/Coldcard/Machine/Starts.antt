-- ===== src/Coldcard/Machine/Starts.antt =====
-- bhwi/src/coldcard/mod.rs: `start` leads to a valid state.
use bhwi.Prelude.{ok, err, panic, diverge, arith}
use bhwi.Coldcard.Bitcoin.{Bitcoin}
use bhwi.Coldcard.Response.{Parsed}
use bhwi.Coldcard.Encrypt.{pub_key, Cipher, encrypt}
use bhwi.Coldcard.Machine
use bhwi.Coldcard.Machine.{
  start, Machine, request, State, UploadAction, to_sign, to_register, FileDownloadResponse,
  uploading_file, downloading_file, finished, running, ColdcardCommand, file_upload_request,
  download_request,
}
use bhwi.Coldcard.Machine.Safety.{Valid}
use bhwi.Coldcard.Machine.Invariant.{file_upload_request-Returns}

module _ (b : Bitcoin) (c : Cipher) where
  abbrev pub GoodStart : Parsed (Machine b c × Machine.ColdcardTransmit) → Type 0
  GoodStart (ok (m, sent)) = Valid m.state
  GoodStart (err e) = Unit {0}
  GoodStart panic = ⊥
  GoodStart diverge = ⊥

  -- `start` does not panic with any command, and if it succeeds the state after it is valid.
  pub start-Good : (m : Machine b c) (command : ColdcardCommand b) → GoodStart (start b c m command)
  unfolding start request encrypt pub_key
  start-Good m Machine.start_encryption = ground arith
  start-Good m Machine.backup = ground arith
  start-Good m Machine.get_version = ground arith
  start-Good m Machine.get_master_fingerprint = ground arith
  start-Good m (Machine.get_xpub path) = ground arith
  start-Good m (Machine.sign_message message path) = ground arith
  start-Good m (Machine.show_address path addr_fmt) = ground arith
  start-Good m (Machine.show_p2sh_address a) = ground arith
  start-Good m (Machine.miniscript_address name change index) = ground arith
  start-Good m (Machine.sign_psbt psbt) =
      let r = file_upload_request-Returns (b.serialize psbt) 0 (omega arith) in ground arith
  start-Good m (Machine.register_wallet payload) =
      let r = file_upload_request-Returns payload 0 (omega arith) in ground arith
