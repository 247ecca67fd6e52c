-- ===== src/Lib.antt =====
-- The domain logic of the trip recommendation platform, services/platform/src (TypeScript, NestJS),
-- modelled and verified: trips, the management of places, reviews of places, the outbox that feeds
-- the recommendation model, the accounts with their roles and tokens, the chat, the notices to users, and the
-- guards of the handlers.
--
-- How the parts interact. A controller, behind the guards, calls a handler, a use case or a service.
-- That loads an aggregate through a repository, runs an operation of the aggregate, which returns
-- or throws, stores the result and publishes events. Every write of a place also puts a row into
-- the outbox in the same transaction, and a relay takes those rows to publish them to a
-- broker. Reviews
-- publish events from which the ratings of places are computed.
--
-- Shared helpers stand in Base: tests on numbers and absent values (Base/Tests), arrays as lists
-- (Base/Lists, Base/Members, Base/Pairs, Base/Updates), `trim` (Base/Texts), tables behind a repository of TypeORM
-- (Base/Repository), and methods that change an object and
-- may throw (Base/Methods). A method is a function of the state; both of its outcomes carry the
-- state, since what was written before a throw stays written.
--
-- Trips, services/platform/src/modules/trip:
--   Trip/TimeSlot          domain/value-objects/time-slot.vo.ts
--   Trip/DateRange         domain/value-objects/trip-date-range.vo.ts
--   Trip/Entities          domain/entities: trip-item.entity.ts, trip-day.entity.ts
--   Trip/Aggregate         domain/aggregates/trip.aggregate.ts; a method `addItem` is `add_item`
--   Trip/Ports             application/ports, what the handlers ask of the database and the event bus
--   Trip/Handlers          application/commands/impls; Requests puts them into one type
--   The proofs stand below these: the invariant and that each operation keeps it
--   (Aggregate/Invariant, Keeps, KeepsItems, History), the status and the version (Lifecycle), the items of
--   a day (Items), the calendar (DateRange/Calendar), the handlers over the aggregate (Handlers/Laws).
--   Trip/Route             domain/services/trip-route-overview.builder.ts and its two handlers; Order proves
--                          what a sort does, Laws and Rebuild the order of the waypoints
-- Places, services/platform/src/modules/place:
--   Place/Management/Entities    management/domain: snapshot, actor, events
--   Place/Management/Aggregate   management/domain/entities/place-management.aggregate.ts
--   Place/Management/Workflow    its operations as one type of commands, and who may run which
--   Place/Management/Storage     management/infrastructure/persistence (repository, mapper, row) and
--                                messaging/place-ml-outbox-writer.service.ts
--   Place/Management/UseCases    management/application/use-cases, those that change one place;
--                                Refinement says in columns what they store
--   Place/Registration           management/application/use-cases, the approval and rejection of the
--                                requests to register a place
--   Place/Reviews                reviews/application/services/place-review.service.ts, its repository
--                                and mapper, and shared/events/place-review.events.ts
--   Place/Relay                  messaging/place-ml-outbox-relay.service.ts; Claim proves what a claim
--                                takes, Driver says what TypeORM gives for it, Stuck what follows
-- Accounts, services/platform/src:
--   Accounts/Roles         modules/permission/services/user-role.service.ts; Primary, Requests, Choice and
--                          Removal prove which role is the primary one, Frame what an assignment leaves
--   Accounts/Users         modules/user: users.service.ts and users.repository.ts
--   Accounts/Auth          core/auth/auth.service.ts; Tokens, Blocking and Validity prove that no request
--                          makes a used token valid, Sessions and Verification what follows for users
-- Chat, services/platform/src/modules/chat:
--   Chat/Key               chat.constants.ts
--   Chat/Entities          the entities of infrastructure/persistence/typeorm and the models
--   Chat/Storage           infrastructure/persistence/repositories
--   Chat/Service           application/services/chat.service.ts
--   Sending and Unread prove what is unread; Detail, Keeping, Sharing and Opening that two users share
--   one conversation.
-- Notifications, services/platform/src/modules/notification: Notifications holds the rows, and
-- Notifications/Dispatch the service of the dispatch; Laws says what it relies on, Once is its proof.
-- Guards, services/platform/src/core/guards and
-- services/platform/src/modules/place/catalog/presentation/guards: Guards, with Guards/RateLimit and
-- Guards/Access.
-- The modules named Tests hold instances at concrete inputs, over databases in memory that meet the
-- laws which the proofs assume of a database.
--
-- How the model reads the code. Identifiers and times that the code takes from `randomUUID`, from
-- the clock or from the database are arguments; numbers that the code uses are natural; a date is its
-- number of milliseconds, and in the chat, where a column is compared with a date, the columns hold
-- microseconds; a value that may be null or undefined is an Option; a JSON value that is
-- carried and never read is its text. The database, the event bus and the broker are arguments: a
-- record of operations over a state of the world, with a second record of the laws that the
-- proofs rely on (TripPortsLaws, RoutePortsLaws, PlaceWorldLaws, ReviewWorldLaws, RegistrationLaws,
-- RepositoryLaws, RoleWorldLaws, AuthWorldLaws, ChatWorldLaws, NotificationLaws). The table of the
-- outbox is a list, because the relay's SQL is code of the repository; what `dataSource.query` gives
-- for a statement is an argument. No function needs fuel: every loop runs over a list.
--
-- Not modelled: controllers, DTOs and the wiring of modules (no logic of their own); failures and
-- interleavings inside the database; the paged lists and the catalog (queries that the database
-- orders); the check of a stored overview; the creation of registration requests; ratings of places;
-- the notice of a registration's mail, the processor of the notifications' queue and their
-- preferences; the permissions of roles; the seeds and migrations; the services in Python
-- and the web client, which are other programs.
pub mod Accounts
pub mod Base
pub mod Chat
pub mod Guards
pub mod Notifications
pub mod Place
pub mod Trip
