-- ===== src/Lib.antt =====
-- gitseal: secrets that are sealed into a Git repository and opened by a broker that asks GitLab, at
-- each request, whether the caller may read them.
--
-- The program has three parts. internal/crypto seals a secret as an age file whose plaintext begins
-- with a header block: the project (a number, or its public key in v4) and the access level that a
-- reader needs. internal/broker holds the projects' identities and answers requests to unseal: it
-- authenticates the caller by a GitLab token or by an SSH key over a one-time nonce, looks up the
-- caller's live level, opens the file, and compares the level with the embedded one. internal/client
-- is what the command line and the CI gate run on bundles of sealed entries.
--
-- Files and code:
--   Prelude, Strconv, Base64: lists, maps, integers, texts (as lists of bytes), and what the code
--     uses of Go's strconv, strings, bufio, encoding/base64 and sort.
--   Age: the interface to filippo.io/age with its documented laws, and an instance of them.
--   Crypto: internal/crypto/{crypto,v4,recipients}.go. Headers has the parsers of the header block, Seal
--     SealMulti and its variants, Open UnsealVerified and its variants, KeyWrap WrapKey and UnwrapKey.
--   Broker.State and Broker.World: the structs of internal/broker, and what the broker calls (GitLab,
--     SSH keys, its peers) as arguments. One request meets one GitLab, and a mutex makes each
--     operation on a store one step.
--   Broker.Challenge (challenge.go), Broker.Keys (reload.go, keystore_dir.go), Broker.Registry
--     (registry.go, recipient_registry.go), Broker.Identity and Broker.Reconcile
--     (identity_index.go, identity_reconcile.go), Broker.Signer (ssh_auth.go, signer_endpoint.go),
--     Broker.Hook (system_hook.go), Broker.Unseal (broker.go).
--   Client.Bundle (sealedbundle.go), Client.Config (seal.go), Client.Authz.Diff, Verdict, Sig, Scan and
--     Inputs (authz_*.go, sign.go), Client.Authz.Command (cmd/sealdctl/authz.go, the gate as one
--     command), Client.Authz.Remote (remote_resolver.go), Client.Verify (verify.go).
--   Client.Author (SealBundleV4 and SealBundleV2 of sealedbundle_v4.go and sealedbundle.go; Names has
--     DiffNames and ResolveEnvs, Flat the SealBundle of v1), Client.Render (the text formats of
--     bundle.go and render_secret.go), Client.Sign (sign_bundle.go), Client.Rotate (rotate.go),
--     Client.Migrate (migrate_*.go), Client.Materialize (materialize.go): each goes from the bundle
--     that was read to the bundle, or the Secret, that is written. Client.Delivery composes sealing
--     with materialising.
--   Client.KeyFile (keyfile.go), Client.Mint (mint_env_keys.go) and Client.Snapshot (registry_edit.go and
--     snapshot.go): the keystore of a directory, fresh keys for a topology, and the configuration that a
--     repository resolves from the registry.
--   Controller: cmd/gitseal-controller/main.go with controller.go and register.go of internal/client,
--     over a cluster's Secrets, the registrations sent and the statuses patched.
--
-- Numbers are natural numbers and integers without a bound, except where the code reads or writes a
-- machine integer: ParseInt refuses what does not fit an int64. Levels, ids and times are compared, not
-- added, with the exception of an expiry, which is far below the bound of a time. Every loop is a
-- recursion on a list, so that no fuel is needed. A map is an association list, in the order in which
-- the code ranges over it; where each key must occur once, a theorem says so.
--
-- Not modelled: HTTP, JSON, YAML and file access (a handler starts from the decoded request, and an
-- answer is a status and a value; an operation on a file starts from what was read and ends with
-- what is written), logging, the flags and the printed text of the command line, and the parts of
-- internal/client that onboard projects and list what is stored.
pub mod Prelude
pub mod Strconv
pub mod Base64
pub mod Age
pub mod Crypto
pub mod Broker
pub mod Client
pub mod Controller
