-- ===== src/Lib.antt =====
-- SayFirst control plane: the decisions that a person takes over an agent's effects.
--
-- An agent asks the control plane before each effect. A policy answers allow, deny or suspend; a
-- suspended effect waits in the approval store until a person ends it or its deadline passes, and one
-- approval authorises one execution. The evidence of each decision records what it read, so that a
-- reader can derive the decision again later.
--
-- Parts, with the files they model:
--   Approval        packages/control-plane/src/sayfirst_control_plane/domain/approval.py: the record
--                   `Approval` and its construction `checked` (`__post_init__`, which
--                   `dataclasses.replace` runs too), `state_at` and `to_document`. `Validity` says
--                   what is constructed and `Rendering` what a reader is told.
--   ApprovalStore   packages/control-plane/src/sayfirst_control_plane/application/approvals.py: the
--                   class `ApprovalStore`. `Store` holds its two dictionaries and its two heaps;
--                   `open` is `open_wait`, and the other methods keep their names (`Acts` has
--                   `resolve`, `claim`, `release_claim` and `consume`; `Sweeps` has `expire_past`,
--                   `forget_lapsed` and `pending_waits`, for `pending`). The invariant is in `Invariant`; `Histories` runs any list of
--                   commands, and `Executions`, `Spends` and `Lookup` are about such histories.
--                   `Provider` is `SimpleApprovalProvider` of the same file, whose `suspend` is
--                   `suspend_for`, over the values of plugins/interfaces.py.
--   Policy          packages/control-plane/src/sayfirst_control_plane/domain/policy.py: rules and
--                   `evaluate`; `Policy/Recipe` is `references_read` (and
--                   `References`, what it reads) with the re-derivation of
--                   packages/contract/src/sayfirst_contract/retrospective_policy.py.
--   Grants          packages/control-plane/src/sayfirst_control_plane/domain/grant.py, with `mint_grant`,
--                   `grant_state` and `grant_matches`. `Minting` says what a minted grant covers.
--                   `Connections` is packages/control-
--                   plane/src/sayfirst_control_plane/application/grants.py: `GrantConnections` with
--                   its reservations and connections. `Endings` has `_write` (`write`), `_peer_lost`
--                   and `_end`; `Openings` has `open`; `Sweeps` has `policy_version_changed`
--                   (`change_policy_version`), `tick` and `shutdown`. `Steps` has the steps that
--                   threads take, in any order: the sections under the lock, each with what its
--                   thread does around it, and the writes and drains, which take no lock. `Bounds`,
--                   `Reserving`, `Keeping`, `Limits`, `Listing`, `Living`, `Stopping` and
--                   `Histories` are about such orders; `Sweeping` and `Ticking` are about a loop over the snapshot that
--                   follows them, with no other thread's step in it.
--   Boundary        packages/boundary/src/sayfirst_boundary: `Freshness` is freshness.py, with
--                   `grant_use` of packages/contract/src/sayfirst_contract/grants.py; `Reader` is
--                   signals.py, a reader's knowledge after any events; `GrantStore` is cache.py,
--                   on readers with identities, and `GrantStore/Histories` and
--                   `GrantStore/Taking` are about any order of acts;
--                   `OutcomeLog` is evidence.py, with the sink as a parameter, and `OutcomeLog/Gaps`
--                   what its records declare.
--   Evidence        packages/control-plane/src/sayfirst_control_plane/domain/evidence_chain.py:
--                   `Framing` is `_component`, `Body` and `Kinds` are `_validate_body` and what it
--                   calls, `Records` has the constructions of `EvidenceRecord` and `EvidenceEntry`,
--                   `Chain` has `preimage`, `chained` and `chained_after_break`, and `Verify` has
--                   `verify` with `_grades` and `_verdict`. `Grading` is `evaluate_grade` of
--                   packages/control-plane/src/sayfirst_control_plane/domain/integrity_grade.py, with
--                   packages/control-plane/src/sayfirst_control_plane/domain/write_reach.py and the facts of
--                   packages/control-plane/src/sayfirst_control_plane/ports/path_access.py; `weakest` of
--                   the first stands in `Verify`.
--                   `Documents` has `entry_to_document` and `entry_from_document`, and `Reading` what is
--                   read of a document that was written.
--                   `Appending`, `Writing` and `Verdicts` are about chains that are written and then
--                   verified, `Tampering` about what a last hash commits to.
--   Common          tests on numbers, lists, dictionaries, heaps and texts that the parts share.
--   Tests           the theorems at concrete inputs.
--
-- How the code is modelled:
--   - A method is a function from the store to its answer or error and the store it leaves. Those of the
--     approval store run under its lock, so a history of it is a list of whole method calls. What a
--     method wrote before it raised stays written.
--   - An instant is a number of microseconds, and the clock's answer is an argument. Every instant has
--     an offset, as the clocks that the core is composed with give; the refusals of naive instants and
--     the text of an instant are not modelled.
--   - A dictionary is an association list, and a heap a sorted list with the operations of `heapq`.
--   - The loops of the two sweeps run on fuel, as much as the heap has entries at the start: an entry
--     that a round pushes back is due later than the sweep, so no round meets it again.
--   - An error is a constructor for each message; the message's words are not modelled. The evidence
--     has the messages themselves, as texts.
--   - The values of a body are those of JSON without floats. UTF-8, canonical JSON, SHA-256 and the
--     text of an instant are the members of `Evidence.Chain.Primitives`: UTF-8 may refuse a text, as
--     `encode` does one with lone surrogates, but no ASCII text; it encodes different texts differently,
--     a digest is 64 lowercase hexadecimal digits, and no more is asked of them. The text of an instant
--     may be refused too.
--   - The fuel of `read_principal` is the depth to which Python may recurse; a document that was written
--     is read with as much as its principals are nested. What `str` and `int` make of other values, and
--     `datetime.fromisoformat`, are the members of `Evidence.Documents.Conversions`.
--   - A grant's connection and a reservation are objects with identities. The writer of a connection's
--     signals is a function that says whether it raises; the record of an issue is made with the
--     registration. A reservation has one owner, so no second thread opens or cancels it at the same time.
--     `reserved_total` is not negative, since a release is of an active reservation.
--   - `GrantStore.close` is one act: its closes of readers follow the lock's release, no other act comes
--     between them, and the close of a channel is taken not to raise.
--
-- Not modelled: the parse of a policy's bytes, whose result is an argument; the decision service around
-- the approval store and the grants, the boundary's acts, and the emission, the export and the reads of
-- evidence, which call what is modelled here; and everything that only reads or writes files and
-- sockets, which is input and output.
pub mod Common
pub mod Approval
pub mod ApprovalStore
pub mod Boundary
pub mod Evidence
pub mod Policy
pub mod Grants
pub mod Tests
