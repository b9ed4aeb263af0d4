-- ===== src/Lib.antt =====
-- linux-id: a virtual FIDO token for Linux. A kernel uhid device carries the CTAPHID transport; the
-- messages it delivers are U2F requests or CTAP2 commands, which the server answers with a signer (a
-- TPM or memory), a verifier of the user (pinentry or a fingerprint reader) and a store of resident
-- credentials.
--
-- Where the code is modelled, by paths from the repository's root:
-- - fidohid/fidohid.go: Hid. `parsePackets` is Hid.Reader.parse_packets, the frames are Hid.Frames,
--   `writeRespose` is Hid.Write.write_respose, `allocateChan` is Hid.Channels.allocate_chan, and `Run`
--   is Hid.Run.run_packets, one `run_packet` for each packet. The device is a parameter: a state and
--   what one `WriteEvent` does to it.
-- - fidoauth/fidoauth.go: U2f.Decode.
-- - internal/lencode/lencode.go: Lencode.Encoder over any writer, Lencode.Decoder over a byte reader.
-- - ctap2/ctap2.go and statuscode/statuscode.go: Ctap2.Types and StatusCode.
-- - ctap2/credstore.go: Ctap2.CredStore. The disk has the credentials' file and the temporary one, and
--   says which calls of the system fail.
-- - main.go: Verifier holds the verifiers and the cache of a recent success; Server.MakeCredential,
--   Server.GetAssertion and Server.Dispatch the CTAP2 handlers; Server.U2f the U2F handlers and the
--   choice between them; Server.Run a round of the loop of `run`, from an event to the written reply;
--   Server.Start `newServer`.
--   A handler takes the server's state to a state and to what it sends; each
--   stretch between two early returns is a function of its own. `Signer` is the interface of the same
--   name, and Server.SignerLaws says what the handlers rely on of an implementation.
-- - memory/memory.go: Memory. `RegisterKey`, `SignASN1` and `Counter` are mem_register_key,
--   mem_sign_asn1 and mem_counter, and Memory.Signer.mem_signer is the interface that they fill.
-- - tpm/tpm.go: Tpm. Tpm.Handle is the key handle, Tpm.Device the templates and the TPM, a parameter:
--   a state and what each command does to it. `RegisterKey` and `SignASN1` are tpm_register_key and
--   tpm_sign_asn1 of Tpm.Signer, and Tpm.Signer.tpm_signer is the interface that they fill. Tpm.Laws
--   says what is relied on of a TPM, and Tpm.Sessions.recording is a TPM with a log of its commands.
-- - fprintd/fprintd.go: Fprintd.Scan. `verifyFingerprint` is verify_fingerprint, with what the system
--   bus answers, the signals of each attempt and whether the bus closes their channel as arguments; it
--   logs the calls that acquire or release.
--   `VerifyPresence` is Fprintd.Sharing.verify_presence, with its goroutines as a step relation, and
--   Fprintd.User is the verifier of main.go on top.
-- - pinentry/pinentry.go: Pinentry.Dialogs. `ConfirmPresence` is confirm_presence; the goroutines that
--   it starts are the steps of the relation Works, in any order and with timers that fire at any time;
--   a goroutine that gave up its request stays until it returns.
--   Pinentry.Binary is the search for the dialog program.
-- - fidohid/fidohid.go and main.go together: Parallel. The goroutines `parsePackets` and `Run` and the
--   loop of `run` are the phases of Parallel.System.System, and Parallel.System.Step is one step of one
--   of them: an event that is heard, a packet or an event that is handed over, or one report that is
--   written. A handler runs when the server takes its event, since it shares nothing with the others
--   but the device; its reports are written afterwards, one step each.
-- - sitesignatures/sitesignatures.go and attestation/attestation.go: SiteSignatures and Attestation.
--   fidohid/fidohid.go: `New` and the names of the commands are Hid.Device.
--
-- What comes from outside the repository is a parameter: hashing, CBOR, JSON, the elliptic curve and
-- the attestation key are the record Server.Types.Services; the user's answers and their times are
-- arguments. Numbers are the natural numbers, with the wrap-around of a machine word written out;
-- bytes are below 256 where a theorem says so. The loop of `writeRespose` runs on fuel, the length of
-- the data, which is enough since each round sends a byte at least; all other loops are structural.
-- The channels' loop counts the candidates that are left.
--
-- Not modelled: the log of the program, with the order of its lines, and main, which only calls
-- `newServer` and `run`. A write to the device whose error is only logged has no other effect, and the
-- program's context is never cancelled. The calls of a signer return: what panics within a signer is
-- modelled for the memory signer only, and a server without a signer only by `newServer`.
--
-- Each of these modules holds its theorems beside its definitions; Common has the shared helpers, and
-- Tests the theorems at concrete inputs.
pub mod Attestation
pub mod Common
pub mod Hid
pub mod U2f
pub mod Lencode
pub mod StatusCode
pub mod Ctap2
pub mod Verifier
pub mod Server
pub mod SiteSignatures
pub mod Tests
pub mod Memory
pub mod Fprintd
pub mod Tpm
pub mod Pinentry
pub mod Parallel
