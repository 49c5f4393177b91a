-- ===== src/Lib.antt =====
-- A model of the off-chain half of boundless-stock: the TypeScript that relays messages between the
-- chains of a deployment, keeps the order history, tells partners of it, and answers their requests.
-- Orders are placed on mirror chains and executed at home; the contracts on the chains, their RPC
-- nodes, SHA-256 and HTTP are arguments of the definitions that use them.
--
-- The parts, and the file that models each:
--   Executor     the options builder (infra/lib/options.ts, `solanaOrderOptions` of
--                infra/api/options.ts), and the parser and packet decoder of infra/relayer.ts. Hex
--                texts are lists of digits (Hex). The parser's loop runs on fuel, one more than the
--                text's length, since each round moves the cursor on.
--   Relayer      the class `Relayer` of infra/relayer.ts, which uses that parser and decoder: its
--                fields are the record `Relayer`, its methods functions on that record and a state of
--                the world, which may throw. `drain` runs on the rounds its caller gives it.
--   History      `syncHistory` of infra/history.ts: mirrors with what could be read of them, the
--                book of records by key, the pass over what is held, and the sorted result.
--   Webhooks     `webhookPass` of infra/webhooks.ts, which reads the history: the states last seen,
--                the outbox, attempts with their delays, the dead deliveries.
--   PartnerApi   keys, the rate limit and the order of checks in apps/web/src/lib/partner-api.ts.
--   Quote        `quote` of infra/api/quote.ts with the request's checks of infra/api/context.ts;
--                numbers below zero are kept as integers.
--   Sqrt         the square root and opening price of infra/lib/uniswap.ts; the loop runs on the
--                number itself as fuel, since the estimate falls in each round.
--   Config       the checks of infra/lib/config.ts and infra/lib/decimals.ts on a deployment's parsed
--                configuration, which the other parts take their chains and decimals from.
--   Supply       `measureSupply` and `solanaOftFlow` of infra/lib/omnisupply.ts: what each chain was read
--                to hold, and the tally of an asset over all chains.
--   Reserves     `reserves` of infra/api/reserves.ts, on that tally.
--   Orders       infra/api/orders.ts: Build is `buildOrder`, Follow is `getOrder` with `nextStep`, and
--                Listed is `listOrders`, which reads the records of History.
--   Manifest     the operations of infra/lib/manifest.ts on a deployment's manifest.
--   Peers        `wirePeers` and `auditPeers` of infra/modules/03-peers.ts, which keep their links in
--                the manifest.
--   Partners     `applyPartners` of infra/lib/partners.ts, on the mirrors of a manifest.
--   Deploy       the tokens of infra/modules/01-token.ts and infra/modules/02-mirrors.ts, with `reuse`
--                of infra/lib/reuse.ts.
--   Sdk          `signWebhook` and `verifyWebhook` of packages/sdk/src/webhook.ts; a number is printed on
--                its size as fuel, since each digit makes it smaller. Evm is packages/sdk/src/evm.ts, Client
--                packages/sdk/src/client.ts, whose loop runs on one more round than the timeout has
--                milliseconds.
--   Live         apps/web/src/lib/live.ts: amounts as text, caches, what is current; Operations is the
--                operator's view of the histories.
--   Solana       infra/solana/client.ts: Accounts reads the program's accounts, Orders builds orders, Admin
--                the admin's calls and the release of fees, Table the lookup table; Decode is
--                packages/sdk/src/solana.ts, which approves those orders; Mint is the check of a mint in
--                infra/solana/token.ts and infra/solana/setup.ts, whose loop runs on the data's length as
--                fuel, since each round moves on by four bytes. A public key is of any type.
--   Prelude      the names they share: Boolean tests, lists over the native numbers, results that
--                may be thrown errors, dictionaries in insertion order, integers.
-- In each part the child modules hold the lemmas, named for what they are about, and Tests runs it
-- on concrete data.
--
-- Not modelled: prices and ticks in floating point, logging, the command line, the web pages, the
-- Solana and Solidity programs and their setup, the relay and pool contracts' deployment, reading
-- files and variables.
-- Numbers of JavaScript are modelled where they are integers; times are in milliseconds, or in
-- seconds where the code has them so.
pub mod Prelude
pub mod Hex
pub mod Executor
pub mod History
pub mod Webhooks
pub mod PartnerApi
pub mod Quote
pub mod Sqrt
pub mod Relayer
pub mod Config
pub mod Supply
pub mod Reserves
pub mod Orders
pub mod Manifest
pub mod Peers
pub mod Partners
pub mod Deploy
pub mod Sdk
pub mod Solana
pub mod Live
