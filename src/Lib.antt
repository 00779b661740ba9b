-- ===== src/Lib.antt =====
-- A model of the vote module of the chain (x/vote) and of the cryptography it stores and checks
-- (crypto/elgamal, crypto/shamir).
--
-- The parts and how they meet. Voters send messages that delegate, cast and reveal votes. Each passes
-- stateless checks and the verification of its proofs, then a handler that reads and writes the
-- module's store: sets of nullifiers, one commitment tree for each round, encrypted tally
-- accumulators. Validators hold the key of a round together: a ceremony shares it, acks confirm it,
-- and partial decryptions open the tally. Vote managers propose and approve actions together, which
-- open sessions and change settings. The end of a block updates tree roots and moves rounds by time.
--
-- Which file models what (paths of the repository):
--   Base        helpers; Base.Call is a call with an error result over an explicit store
--   Keys        x/vote/types/keys.go, byte by byte
--   Types       the structs of x/vote/types/types.pb.go and tx.pb.go, and constants
--   Kv          the store (cosmossdk.io/core/store) as an interface with laws; Kv.Table is one such
--   Keeper      Rounds: keeper.go; Nullifiers, Tree, Voting: keeper_voting.go and
--               types/vote_validation.go; Tally: keeper_tally.go; Ceremony: keeper_ceremony.go and
--               keeper_ceremony_jailing.go; Registry: keeper_pallas_registry.go; Managers:
--               keeper_vote_managers.go, keeper_min_validators.go and types/genesis.go; Endorsers:
--               keeper_endorsers.go; Actions: keeper_coordinator_actions.go (all in x/vote/keeper)
--   Crypto      the curve as an interface with laws; ElGamal: crypto/elgamal/elgamal.go and
--               serialize.go; Proofs: dleq.go and dkg_pop.go; Bsgs: bsgs.go; Shamir and Feldman:
--               crypto/shamir
--   Msgs        x/vote/types/msgs.go (ValidateBasic) and ffi/tx1/effects.go; Sighash: sighash.go
--   Ante        x/vote/ante/validate.go, which runs before the handlers
--   Server      Voting: msg_server.go; Tally and Decrypt: msg_server_tally_decrypt.go and
--               keeper_partial_decrypt.go; Ceremony, Contribute, Registry: msg_server_ceremony.go;
--               Sessions: the session creation of msg_server.go; Coordinator:
--               msg_server_coordinator_actions.go with the executed handlers of msg_server_send.go,
--               msg_server_upgrade.go and msg_server_endorsements.go; Deliver: a sequence of
--               messages, where one that fails leaves the store as it was
--   EndBlock    EndBlock of x/vote/module.go
--   Scenarios   concrete data, and each theorem at a concrete input
--
-- Names are those of the Go code in snake case. A handler is a function from the store to its outcome
-- and the store it leaves, errors included; the value under a key is bytes or a protobuf message, and
-- marshalling a message and reading it back is taken to give the message. Native numbers stand for
-- machine integers; additions and subtractions that can wrap are taken modulo 2^64 (add64, sub64).
-- Byte strings are lists of numbers; a theorem that needs them below 256 says so.
--
-- Loops over lists are structural recursion. The search of a logarithm counts its steps: m baby steps
-- and m + 1 giant steps, the counts that the two loops of bsgs.go have. No fuel is used.
--
-- Parameters, with their documented behaviour: the SDK (the store's implementation; the staking,
-- slashing, bank, account and upgrade modules; bech32 addresses; protobuf decoding of payloads), the
-- curve library curvey (an interface with the laws of a vector space over its scalars, the scalars'
-- bytes and hashing), the Rust tree behind ComputeTreeRoot, the ack digest, the Poseidon round id,
-- BLAKE2b, random nonces, the floating-point square root, and the Rust verifiers of signatures and
-- zero-knowledge proofs.
--
-- Not modelled: routing, gas, events, logging, queries, genesis,
-- CreateValidatorWithPallasKey, proposal handlers, the HTTP API, the helper services and the command
-- line.
pub mod Base
pub mod Keys
pub mod Types
pub mod Kv
pub mod Keeper
pub mod Crypto
pub mod Msgs
pub mod Server
pub mod EndBlock
pub mod Scenarios
pub mod Ante
