-- ===== src/Lib.antt =====
-- Kiro-RS-Tool is a gateway that offers the Anthropic API and answers it from a pool of Kiro
-- credentials. This library models its core and proves what makes it correct:
--
-- * src/kiro/parser/, the decoder of the AWS event stream in which the upstream service answers.
--   error.rs is Kiro/Parser/Error.antt (`ParseError`, `ParseResult`), header.rs is Header.antt
--   (`parse_headers`, `parse_header_value`), frame.rs is Frame.antt (`parse_frame`, cut at the points
--   where it reads the prelude and checks the length), decoder.rs is Decoder.antt (`feed`, `decode`,
--   `try_recover`, the iterator). Bytes.antt and Utf8.antt hold what they take from Rust's slices and
--   strings: a read out of bounds is a `fault`, an outcome that the theorems exclude.
--   Frame/Sound.antt describes a message by its fields, apart from the code.
-- * src/kiro/token_manager.rs, the pool of credentials. Kiro/TokenManager/Entry.antt has its state,
--   Select.antt the choice of a credential (`select_next_credential`, the block at the top of
--   `acquire_context` as `choose`), Report.antt the reports on upstream calls, Admin.antt the methods
--   of the Admin API, Tokens.antt what is written when a token is renewed, reloaded, replaced or
--   added, with the answers of the token service as arguments. Calls.antt is the machine whose steps
--   are all of these. `supports_opus` is of src/kiro/model/credentials.rs.
-- * src/anthropic/stream.rs, which turns the events of the service into those of the Anthropic
--   protocol. Anthropic/Sse.antt has `SseStateManager`, the order of the events of a message:
--   Sse/Status.antt is the machine of its calls, Sse/Trace.antt the events that it sends,
--   Sse/Final.antt the end of a message. Under Anthropic/Stream/ are XmlFilter.antt
--   (`ToolUseXmlLeakFilter`, with `strip_tool_use_xml_leaks` of src/kiro/model/events/assistant.rs),
--   Thinking.antt (the scanner for thinking tags), ToolJson.antt (`ToolJsonAccumulator`), Tokens.antt
--   (`estimate_tokens`), Context.antt with Blocks.antt, Content.antt, Process.antt and Finish.antt
--   (`StreamContext`: the single blocks, the text with its thinking block, the events of the service,
--   the end of the stream) and Buffered.antt (`BufferedStreamContext`). Event.antt has the events, of
--   src/kiro/model/events/, and Platform.antt what the stream takes from elsewhere.
--   Anthropic/Protocol.antt describes the order of events that a client expects, apart from the code,
--   with `error` behind `message_stop`, and Protocol/Strict.antt without;
--   Sse/View.antt to Sse/Ending.antt and Stream/Context/Ready.antt to Run.antt compare the two.
-- * src/anthropic/converter.rs, of which Anthropic/Converter.antt has the names of the models,
--   Converter/ToolName.antt the names of tools (`map_client_tool_name_to_kiro`) and
--   Converter/ToolInput.antt and FromKiro.antt their inputs, for the service and back,
--   and Converter/Pairing.antt the pairing of calls with results (`validate_tool_pairing`,
--   `remove_orphaned_tool_uses`).
-- * src/anthropic/cache_metering.rs, the cache of prompt prefixes, of which Anthropic/CacheMetering.antt
--   has the cache (`CacheMeter`), CacheMetering/Split.antt the split of the usage, Seed.antt the
--   session and the time to live of a request, Canonical.antt and Signature.antt the texts that are
--   hashed and counted, Segments.antt the chain of prefixes (`extract_segments`) and Plan.antt the plan
--   of a call (`compute_cache_usage`). Anthropic/Request.antt has the request, of
--   src/anthropic/types.rs. Walk.antt is the induction over a request, Ordered.antt to Written.antt
--   are what is proved along it, Bounds.antt and Turn.antt what follows for plans.
-- * src/image_resize.rs, in ImageResize/Limits.antt (the limits, the estimate of tokens) and
--   Shrink.antt (`maybe_shrink_image`); Shrink/Read.antt is about what it decodes, Ends.antt about its
--   loops.
-- * src/kiro/provider.rs, the calls with their retries over the pool. Kiro/Provider/Policy.antt has
--   the retry policies of src/model/config.rs, Endpoint.antt the tests on the body of an error of
--   src/kiro/endpoint/mod.rs, Acquire.antt `acquire_context` of
--   src/kiro/token_manager.rs, Call.antt `call_api_with_retry` and Mcp.antt `call_mcp_with_retry`.
-- * src/admin/proxy_pool.rs, in Admin/ProxyPool.antt with Url.antt for `validate_proxy_url`
--   and Health.antt for the health checks. Calls.antt is the machine of its methods, Valid.antt what
--   every method keeps true, Probes.antt the effect of a row of health checks, Add.antt what becomes
--   of a proxy that was added.
-- * src/admin/client_keys.rs, in Admin/ClientKeys.antt (the state, `load`, `save_locked`), Calls.antt
--   (what the administrator and the meter do), Verify.antt (`verify_and_touch`) and Display.antt
--   (how a key is shown). Accepted.antt is about the keys that are let in, Live.antt about the
--   enabled entries of an id, Revoked.antt has the machine of the methods.
--
-- The decoder turns the bytes of the upstream answer into frames, which become events that the state
-- manager puts in order for the client; the outcome of the call is reported to the pool, which
-- chooses the credential of the next one. A method that changes its object takes the state and
-- returns the state after it. A method is one step, and orders of calls are sequences of steps; what
-- other threads may do between two locks that one method takes is not modelled, but for the results
-- of a health check, which are a step of their own.
--
-- Numbers: lengths, counts and times are natural numbers. The integers of a header are read as signed
-- numbers of their width, and the count of failed probes wraps at 2 ^ 32. Counters that grow by one
-- for each call (successes, failures in all, ids, skipped bytes) are not wrapped. A clock is read once
-- for each call, as the argument `now`.
--
-- Bounds and fuel: the loop of `parse_headers` has the header length as fuel, which is enough since a
-- round reads two bytes or more. The loop over `decode_iter` takes its fuel as an argument; one more
-- than the length of the buffer is enough, since an item takes bytes off the buffer or stops the
-- decoder. The filter of leaked tool calls takes fuel by the length of its text, and the loop of
-- `process_content_with_thinking` three rounds. In maybe_shrink_image the loop over the quality takes one
-- more round than the quality, which falls in each, and that over the long side one more than its
-- pixels. The loop of `acquire_context` consumes a list of answers for the tokens, and the attempts of a
-- call are counted down from `max_retries`.
--
-- Parameters: the checksum `crc32` of the crate crc, which may be any function; reading and
-- printing JSON; arithmetic on floating point numbers; SHA-256; what the crates base64 and image make of
-- the bytes of a picture; the replies of the upstream service and of the token service; the findings of network probes; the
-- answers of writes to disk, which return the text of an error or none. Titles of subscriptions and names of models are compared in upper and lower case as ASCII text. The order in
-- which a hash map is iterated is the order of a list.
--
-- Not modelled: logging, the files and the debounced writes of statistics, the requests that are sent
-- and the waits between them, the cache of HTTP clients, the conversion of requests but for models and
-- tools, usage statistics, and the HTTP handlers.
pub mod Prelude
pub mod Kiro
pub mod Anthropic
pub mod Admin
pub mod ImageResize
pub mod Tests
