-- ===== src/Lib.antt =====
-- NAC-ABE: name-based access control with attribute-based encryption over Named Data Networking.
--
-- An attribute authority (src/attribute-authority.cpp) sets up an ABE scheme, publishes its public
-- parameters, and issues decryption keys to the decryptors that have a token. A producer
-- (src/producer.cpp, src/cache-producer.cpp) fetches the parameters (src/param-fetcher.cpp), makes a
-- content key, encrypts content with it, and names the content key in the data. A data owner
-- (src/data-owner.cpp) sets the producer's policies by signed Interests. A consumer
-- (src/consumer.cpp) fetches its decryption key, the data, and the content key that the data names,
-- and decrypts. src/trust-config.cpp keeps the certificates that a party trusts, src/algo is the
-- layer over OpenABE, src/ndn-crypto that over AES and RSA.
--
-- Common holds the shared notions: octets, maps, results, and methods that change their object and
-- may throw. Constants is src/common.hpp. The libraries are parameters, with documented behaviour as
-- laws: Ndn (names and TLV blocks), Packets, Security (certificates, signatures, segments, property
-- trees), OpenAbe, and Crypto in NdnCrypto. Sample has a toy version of each, at which the theorems
-- are applied.
--
-- Algo is src/algo: Keys and Content the buffers and blocks, Context and Support the operations of
-- ABESupport, Decrypt its decryption with the cache of content keys, which is explicit state.
-- TrustConfig is src/trust-config.cpp, ParamFetcher src/param-fetcher.cpp. Producer is
-- src/producer.cpp: Policies the tables, State the members, Produce the making of packets, Command
-- the constructors and onPolicyInterest; Producer.Cache is src/cache-producer.cpp. DataOwner is
-- src/data-owner.cpp. Consumer is src/consumer.cpp: State the members, Fetch decryptContent and the
-- ends of content key fetches, Consume the rest; Consumer.Session runs a consumer between its users
-- and the network, Consumer.Retries a request whose Interests time out. AttributeAuthority is
-- src/attribute-authority.cpp: State the members, constructors and tokens, Request the key requests,
-- Lifetime an authority with all its requests. Delivery joins producer and consumer. JsonHelper is
-- src/json-helper.cpp. Examples is examples/: Programs the three programs, Serving what the producer
-- puts, Ready what the programs start with, Hello the programs together. Functions keep the names of the source in snake case.
--
-- A handler is a function of the state and of what comes from outside: an Interest, an answer, what
-- a validator says, randomness and time. What it sends is its result, or an event of the consumer. A
-- pair of callbacks is a number. An exception is a value, and what was written before it stays
-- written. Undefined behaviour of the source is the exception `undefined`, which is never caught.
-- Loops over lists are structural; `std::to_string` of a 32-bit word has ten digits of fuel, as many
-- as the word can have. Sizes that the source cuts to 32 bits are cut here (`to_u32`).
--
-- Not modelled: signing of replies, prefix registration, logging, the segment fetcher and the
-- validator themselves, and callbacks that call back into the object. Callbacks that the source
-- gives to a validator or to a certificate fetch are taken to run before the handler returns. `int`
-- arithmetic is taken not to overflow, and `setDefaultTimeout` and `setMaxRetries` are given no
-- negative numbers. `decrypt` also writes the key that it recovers into the
-- content key object that it was given, which nothing reads afterwards. The tests are left out, and
-- so are the event loops, the output and the main functions of the examples.
pub mod Common
pub mod Constants
pub mod Ndn
pub mod Packets
pub mod Security
pub mod OpenAbe
pub mod Algo
pub mod TrustConfig
pub mod ParamFetcher
pub mod Producer
pub mod Consumer
pub mod DataOwner
pub mod NdnCrypto
pub mod AttributeAuthority
pub mod JsonHelper
pub mod Delivery
pub mod Examples
mod Sample
