-- ===== src/Lib.antt =====
-- The backend of a DeSo node: the DAO coin exchange, the store of the node's own state, the
-- price of DESO, NFT drops, the fees of transactions, the spending limits of derived keys, the
-- verification of phone numbers, the extra data of transactions, and who may reach a handler.
--
-- Parts and files
-- * DaoCoin/ models routes/dao_coin_exchange.go, the limit orders of the DAO coin exchange. Prices
--   are decimal strings in the API and are kept as base unit rates scaled by 10^38.
--   Types has the strings, the errors and the two operation types; Rates the conversions
--   CalculateScaledExchangeRateFromPriceString (its ASK branch is ask_scaled_exchange_rate, its BID
--   branch bid_scaled_exchange_rate) and CalculatePriceStringFromScaledExchangeRate; Quantities the
--   conversions of quantities; Book the endpoints GetDAOCoinLimitOrders and
--   GetTransactorDAOCoinLimitOrders, the responses that they build, and the best exchange rate;
--   Checks what is checked before an order is placed. Book and Checks call the others; Checks reads
--   the open orders. Placing models the handlers of routes/transaction.go that make and cancel
--   orders (CreateDAOCoinLimitOrder, CreateDAOCoinMarketOrder, CancelDAOCoinLimitOrder), which put
--   Rates, Quantities, Checks and the fees together; limit_order_metadata and market_order_metadata
--   are what is between the request and the transaction.
-- * Core.antt is what the exchange uses of deso-core, holiman/uint256 and Go's float64: a record of
--   operations with the documented laws of their results, a parameter of every definition.
-- * GlobalState/ models routes/global_state.go. Prefix has the prefix bytes of the database; Keys
--   the functions that build keys (GlobalStateKeyFor... in Go are key_for_... here), with Stored,
--   one value for each kind of record; Store the methods of GlobalState: Client the calls Put, Get,
--   BatchGet, Delete and Seek, Server the handlers that serve them to other nodes (PutRemote and so
--   on), Route the routes of these handlers, which go through Access, Interface what they use of
--   badger, JSON and HTTP. A client with a remote node sends its call to the routes of that node:
--   Asked has what it sends, Remote what comes of it where the routes are open, Closed where not.
-- * Prices/ models the price of DESO of routes/base.go and the settings of routes/admin_buy_deso.go:
--   the history of trade prices that getMaxPriceFromHistoryAndCull culls in place, the refresh of
--   the exchange rate, and the reserve price and fee, which are cached in the server and kept in the
--   global state; Reserve uses the store of GlobalState.
-- * PhoneAmount models GetPhoneVerificationAmountToSendNanos of routes/verify.go, with the amounts of
--   config/config.go.
-- * Users.antt models the record of a user of routes/global_state.go and how routes/shared.go reads and
--   writes it. Phone/ models the verification of phone numbers of routes/verify.go: the handlers
--   SendPhoneNumberVerificationText and SubmitPhoneNumberVerificationCode, which are actions
--   (Base/Actions) on the store and the payments made so far. Reads and Steps have what the reads and
--   writes do, Book what the records are to satisfy, Free what the validation of a number shows, Filed,
--   Paid, Saved and Submit what an accepted code does, Accepted when one is accepted, and History the
--   sequences of requests. It uses the tokens of Access and the store and the keys of GlobalState.
-- * NftDrop models AdminUpdateNFTDrop of routes/admin_nft.go, which makes a drop of NFTs or edits one of
--   the last two, with GetLatestNFTDropEntry and GetNFTDropEntry: new_drop_entry and
--   updated_drop_entry are the checks of a new drop and of an edit. Storage has what its reads and
--   writes do on a database, Book what the stored drops are to satisfy, and History the sequences of
--   requests. It uses the store and the keys of GlobalState.
-- * Fees/ models routes/admin_fees.go and getTransactionFee of routes/transaction.go: the fees of each
--   type of transaction and the exempt keys, which are kept in the global state and cached in the
--   server. Server has the handlers, Served the sequences of requests to them. It uses the store and
--   the keys of GlobalState.
-- * SpendingLimits/ models TransactionSpendingLimitToResponse and TransactionSpendingLimitFromResponse of
--   routes/transaction.go, between flat maps and nested ones: Convert has the two functions; Maps,
--   Levels, Nested and Twice what setting an entry does to the map that is read back. It decodes post
--   hashes as NftDrop does.
-- * ExtraData/ models routes/extra_data_utils.go, the extra data of a transaction: the encoding of each
--   reserved field (special_encoding is the table specialExtraDataKeysToEncoding), EncodeExtraDataMap
--   and DecodeExtraDataMap. Numerals and Hex are what Go's strconv and encoding/hex do, Stable has the
--   laws of each encoding and Maps those of the maps.
-- * Access/ models who reaches a handler, of routes/server.go: ValidateJWT, CheckAdminPublicKey,
--   AddHeaders and the order in which NewRouter wraps a handler (route_handler), and UserAdminStatus of
--   routes/user.go. Tokens and Admins have the checks, Headers the headers with Cors for what they let
--   through, Routes the composition. golang-jwt, btcec and deso-core are a record of operations,
--   TokenLib, with what a valid token proves as a law.
-- * Base/ has the shared types and lemmas.
--
-- How the code is modelled
-- * A Go function that returns an error is a function into Result: a value, an error, or a
--   run-time panic. A uint256.Int, and a big.Int that is never negative, is a natural number;
--   overflow is what uint256 reports of it, and the 256-bit limit is written out. A string or a
--   byte slice is the list of its codes; a nil slice is none where the code can return it.
-- * Calls of the store pass the database and the network behind it explicitly. A handler that
--   panics gives no reply, which the client sees as an error of the transport.
-- * A Go map that is visited by range is the list of its entries, in the reverse of the order of the
--   visit, which may be any; other maps are functions.
-- * The augmented view of the chain, which a handler may fetch more than once, is one value: what
--   arrives between two fetches is left out.
-- * Every loop runs over a list, or as many times as a slice is long, so there is no fuel. uint64
--   subtraction of timestamps wraps.
--
-- Not modelled: the encoding of HTTP responses in the exchange's handlers, the text of error
-- messages, the numbers that float fields are parsed to, the requests for market prices, the rates
-- of the responses' deprecated float fields, the simulated execution of orders, and the other files
-- of routes/, which build and submit transactions through deso-core or call third-party services.
pub mod Access
pub mod Base
pub mod Core
pub mod DaoCoin
pub mod GlobalState
pub mod NftDrop
pub mod ExtraData
pub mod Fees
pub mod SpendingLimits
pub mod PhoneAmount
pub mod Users
pub mod Phone
pub mod Prices
